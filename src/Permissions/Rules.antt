-- ===== src/Permissions/Rules.antt =====
-- The rules of `rewrite_apt` and the others: the words and the variables that a tool gets.
use ferrite_mcp.Prelude.{
  Bool, false, not, ◌||◌, Option, none, some, List, [], ◌∷◌, ◌++◌, if◌then◌else◌, Text, codes,
  text_eq, elem,
}

-- one of the words is among these
unfoldable pub any_of : List Text → List Text → Bool
any_of flags [] = false
any_of flags (w ∷ ws) = elem w flags || any_of flags ws

abbrev pub interactive_verbs : List Text
interactive_verbs =
    codes "install"
    ∷ codes "remove"
    ∷ codes "purge"
    ∷ codes "autoremove"
    ∷ codes "upgrade"
    ∷ codes "full-upgrade"
    ∷ codes "dist-upgrade"
    ∷ codes "reinstall"
    ∷ []

-- The words that a rule makes of a command's, if it changes them.
abbrev pub Rule : Type 0
Rule = List Text → Option (List Text)

unfoldable pub apt_rule : Rule
unfolding any_of
apt_rule (bin ∷ verb ∷ rest) =
    let quiet =
      if any_of (codes "-q" ∷ codes "--quiet" ∷ []) (bin ∷ verb ∷ rest)
      then []
      else codes "-q" ∷ [] in
    if not (elem verb interactive_verbs)
    then none
    else if any_of (codes "-y" ∷ codes "--yes" ∷ []) (bin ∷ verb ∷ rest)
    then none
    else some (bin ∷ verb ∷ (quiet ++ codes "-y" ∷ rest))
apt_rule _ = none

unfoldable pub pip_rule : Rule
unfolding any_of
pip_rule (bin ∷ verb ∷ rest) =
    if not (text_eq verb (codes "install"))
    then none
    else if any_of (codes "--no-input" ∷ codes "-q" ∷ codes "--quiet" ∷ []) (bin ∷ verb ∷ rest)
    then none
    else some (bin ∷ verb ∷ codes "--no-input" ∷ rest)
pip_rule _ = none

unfoldable pub rustup_rule : Rule
unfolding any_of
rustup_rule (bin ∷ verb ∷ rest) =
    if any_of (codes "-y" ∷ codes "--no-update-default-toolchain" ∷ []) (bin ∷ verb ∷ rest)
    then none
    else if elem verb (codes "update" ∷ codes "install" ∷ codes "toolchain" ∷ [])
    then some (bin ∷ verb ∷ (rest ++ codes "-y" ∷ []))
    else none
rustup_rule _ = none

unfoldable pub ufw_rule : Rule
unfolding any_of
ufw_rule (bin ∷ verb ∷ rest) =
    if any_of (codes "--force" ∷ []) (bin ∷ verb ∷ rest)
    then none
    else if elem verb (codes "enable" ∷ codes "disable" ∷ codes "reset" ∷ codes "delete" ∷ [])
    then some (bin ∷ verb ∷ (rest ++ codes "--force" ∷ []))
    else none
ufw_rule _ = none

unfoldable pub dpkg_rule : Rule
unfolding any_of
dpkg_rule (bin ∷ verb ∷ rest) =
    if any_of (codes "--force-confdef" ∷ codes "--force-confold" ∷ []) (bin ∷ verb ∷ rest)
    then none
    else if text_eq verb (codes "-i")
    then some (bin ∷ verb ∷ codes "--force-confdef" ∷ codes "--force-confold" ∷ rest)
    else none
dpkg_rule _ = none

abbrev pub no_rule : Rule
no_rule ws = none

abbrev pub Vars : Type 0
Vars = List (Text × Text)

-- the rule of a tool, and the variables that its rewriter sets
unfoldable pub tool_rule : Text → Rule × Vars
unfolding apt_rule pip_rule rustup_rule ufw_rule dpkg_rule
tool_rule tool =
    if elem tool (codes "apt" ∷ codes "apt-get" ∷ [])
    then (
      apt_rule,
      (codes "DEBIAN_FRONTEND", codes "noninteractive")
          ∷ (codes "APT_LISTCHANGES_FRONTEND", codes "none")
          ∷ [],
    )
    else if elem tool (codes "pip" ∷ codes "pip3" ∷ [])
    then (
      pip_rule,
      (codes "PIP_NO_INPUT", codes "1") ∷ (codes "PIP_DISABLE_PIP_VERSION_CHECK", codes "1") ∷ [],
    )
    else if text_eq tool (codes "npm")
    then (no_rule, (codes "NPM_CONFIG_YES", codes "true") ∷ (codes "CI", codes "true") ∷ [])
    else if text_eq tool (codes "yarn")
    then (
      no_rule,
      (codes "YARN_ENABLE_INTERACTIVE", codes "false") ∷ (codes "CI", codes "true") ∷ [],
    )
    else if text_eq tool (codes "cargo")
    then (no_rule, (codes "CARGO_TERM_COLOR", codes "never") ∷ [])
    else if text_eq tool (codes "git")
    then (
      no_rule,
      (codes "GIT_TERMINAL_PROMPT", codes "0") ∷ (codes "GCM_INTERACTIVE", codes "never") ∷ [],
    )
    else if text_eq tool (codes "rustup")
    then (rustup_rule, (codes "RUSTUP_TOOLCHAIN", []) ∷ [])
    else if text_eq tool (codes "ufw")
    then (ufw_rule, [])
    else if text_eq tool (codes "dpkg")
    then (dpkg_rule, (codes "DEBIAN_FRONTEND", codes "noninteractive") ∷ [])
    else if elem tool (codes "curl" ∷ codes "wget" ∷ [])
    then (no_rule, (codes "CI", codes "1") ∷ [])
    else (no_rule, [])

-- ===== src/Permissions/Rewrite.antt =====
-- `rewrite_command` with the rules of each tool, and the analysis around it.
use ferrite_mcp.Prelude.{
  ℕ, Bool, true, false, not, ◌&&◌, ◌||◌, none, some, List, [], ◌∷◌, ◌++◌, if◌then◌else◌, Text,
  codes, elem,
}
use ferrite_mcp.Dict.{Dict, insert, contains_key}
use ferrite_mcp.Permissions.Words.{
  join, tokenize, first_token, trim, split_pipeline, strip_sudo_prefix,
}
use ferrite_mcp.Permissions.Rules.{Rule, Vars, tool_rule}

pub data SudoersStatus : Type 0 where
  active stale_user missing : SudoersStatus

unfoldable pub is_active : SudoersStatus → Bool
is_active active = true
is_active stale_user = false
is_active missing = false

-- The blockers that the rewriter finds, all of the kind `SudoNotCovered` and none of them resolved: the tool,
-- and whether it is in the whitelist, which the wording depends on.
pub record Blocker : Type 0 where
  pub tool : Text
  pub listed : Bool
  pub auto_resolved : Bool

-- `SUDOERS_SHORT`
abbrev pub sudoers_short : List Text
sudoers_short =
    codes "apt"
    ∷ codes "apt-get"
    ∷ codes "systemctl"
    ∷ codes "ufw"
    ∷ codes "snap"
    ∷ codes "dpkg"
    ∷ codes "ldconfig"
    ∷ codes "tee"
    ∷ codes "chmod"
    ∷ codes "chown"
    ∷ codes "usermod"
    ∷ codes "groupmod"
    ∷ codes "add-apt-repository"
    ∷ codes "update-alternatives"
    ∷ codes "install"
    ∷ codes "tailscale"
    ∷ []

unfoldable pub is_in_sudoers_list : Text → Bool
is_in_sudoers_list tool = elem tool sudoers_short

unfoldable pub requires_sudo_by_convention : Text → Bool
requires_sudo_by_convention tool = elem tool (
    codes "systemctl"
    ∷ codes "ufw"
    ∷ codes "snap"
    ∷ codes "dpkg"
    ∷ codes "add-apt-repository"
    ∷ codes "update-alternatives"
    ∷ [])

unfoldable pub set_vars : Vars → Dict Text → Dict Text
set_vars [] env = env
set_vars ((k, v) ∷ vs) env = set_vars vs (insert env k v)

-- `entry(k).or_insert(v)`
unfoldable pub or_insert : Dict Text → Text → Text → Dict Text
or_insert env k v = if contains_key env k then env else insert env k v

abbrev pub baseline : Vars
baseline =
    (codes "GIT_TERMINAL_PROMPT", codes "0")
    ∷ (codes "DEBIAN_FRONTEND", codes "noninteractive")
    ∷ (codes "PIP_NO_INPUT", codes "1")
    ∷ (codes "PIP_DISABLE_PIP_VERSION_CHECK", codes "1")
    ∷ (codes "CARGO_TERM_COLOR", codes "never")
    ∷ (codes "NPM_CONFIG_YES", codes "true")
    ∷ (codes "YARN_ENABLE_INTERACTIVE", codes "false")
    ∷ (codes "APT_LISTCHANGES_FRONTEND", codes "none")
    ∷ []

unfoldable pub inject : Vars → Dict Text → Dict Text
unfolding or_insert
inject [] env = env
inject ((k, v) ∷ vs) env = inject vs (or_insert env k v)

-- What the rewriter collects beside the text.
pub record Notes : Type 0 where
  pub env : Dict Text
  pub blockers : List Blocker

unfoldable pub blockers_of : SudoersStatus → Bool → Text → List Blocker
unfolding is_active is_in_sudoers_list
blockers_of status has_sudo tool =
    if has_sudo && not (is_active status)
    then record { tool = tool; listed = is_in_sudoers_list tool; auto_resolved = false } ∷ []
    else []

pub record Analysis : Type 0 where
  pub original : Text
  pub rewritten : Text
  pub injected_env : Dict Text
  pub blockers : List Blocker
  pub all_clear : Bool
  pub sudo_status : SudoersStatus

unfoldable pub all_resolved : List Blocker → Bool
all_resolved [] = true
all_resolved (b ∷ bs) = b.auto_resolved && all_resolved bs

module _ (is_whitespace : ℕ → Bool) where
  -- a rewriter of one tool: a command that its rule does not change is left as it is, spaces and all
  unfoldable pub rewrite_by : Rule → Text → Text
  unfolding tokenize join
  rewrite_by rule cmd = elim (rule (tokenize is_whitespace cmd)) [ none ↦ cmd | some ws ↦ join ws ]

  unfoldable pub add_sudo : SudoersStatus → Bool → Text → Text → Text
  unfolding is_active requires_sudo_by_convention
  add_sudo status has_sudo tool cmd =
      let needs_sudo = has_sudo || requires_sudo_by_convention tool in
      if has_sudo || (needs_sudo && is_active status) then codes "sudo " ++ cmd else cmd

  unfoldable pub rewrite_inner : SudoersStatus → Bool → Text → Notes → Text × Notes
  unfolding first_token tool_rule set_vars rewrite_by add_sudo blockers_of
  rewrite_inner status has_sudo inner notes =
      let tool = first_token is_whitespace inner in
      let (rule, vars) = tool_rule tool in
      (
        add_sudo status has_sudo tool (rewrite_by rule inner),
        record {
          env = set_vars vars notes.env;
          blockers = notes.blockers ++ blockers_of status has_sudo tool;
        },
      )

  unfoldable pub rewrite_segment : SudoersStatus → Text → Notes → Text × Notes
  unfolding strip_sudo_prefix rewrite_inner
  rewrite_segment status [] notes = ([], notes)
  rewrite_segment status (c ∷ seg) notes =
      let (has_sudo, inner) = strip_sudo_prefix is_whitespace (c ∷ seg) in
      rewrite_inner status has_sudo inner notes

  unfoldable pub delimiter : Text → Text
  delimiter [] = []
  delimiter (c ∷ d) = b' ' ∷ c ∷ (d ++ b' ' ∷ [])

  unfoldable pub rewrite_segments : SudoersStatus → List (Text × Text) → Notes → Text × Notes
  unfolding rewrite_segment delimiter trim
  rewrite_segments status [] notes = ([], notes)
  rewrite_segments status ((seg, delim) ∷ segs) notes =
      let (text, noted) = rewrite_segment status (trim is_whitespace seg) notes in
      let (rest, all) = rewrite_segments status segs noted in
      (text ++ (delimiter delim ++ rest), all)

  unfoldable pub rewrite_command : SudoersStatus → Text → Text × Notes
  unfolding inject split_pipeline rewrite_segments trim
  rewrite_command status cmd =
      let (text, notes) =
        rewrite_segments status (split_pipeline is_whitespace cmd)
          (record { env = inject baseline []; blockers = [] }) in
      (trim is_whitespace text, notes)

  unfoldable pub analyze : SudoersStatus → Text → Analysis
  unfolding rewrite_command all_resolved
  analyze status cmd =
      let (text, notes) = rewrite_command status cmd in
      record {
        original = cmd;
        rewritten = text;
        injected_env = notes.env;
        blockers = notes.blockers;
        all_clear = all_resolved notes.blockers;
        sudo_status = status;
      }

  -- the command and the variables that `exec` uses
  unfoldable pub preprocess : SudoersStatus → Text → Text × Dict Text
  unfolding rewrite_command
  preprocess status cmd = let (text, notes) = rewrite_command status cmd in (text, notes.env)

-- ===== src/Permissions/Recovery.antt =====
-- `classify_error` and `apply_flag`: what is tried after a command has failed. The reasons are left out.
use ferrite_mcp.Prelude.{
  ℕ, Bool, false, ◌&&◌, ◌||◌, Option, none, some, List, [], ◌∷◌, ◌++◌, if◌then◌else◌, Text, codes,
  starts_with,
}
use ferrite_mcp.Permissions.Words.{join, tokenize, first_token, trim_start}
use ferrite_mcp.Permissions.Rewrite.{SudoersStatus, is_active, is_in_sudoers_list}

pub data RecoveryAction : Type 0 where
  retry_after_delay : (secs : ℕ) → RecoveryAction
  retry_with_flag : (flag : Text) → RecoveryAction
  retry_with_sudo : (tool : Text) → RecoveryAction
  unrecoverable : RecoveryAction

-- `str::contains`
unfoldable pub contains : Text → Text → Bool
contains needle [] = starts_with needle []
contains needle (c ∷ s) = starts_with needle (c ∷ s) || contains needle s

unfoldable pub contains_any : List Text → Text → Bool
unfolding contains
contains_any [] s = false
contains_any (n ∷ ns) s = contains n s || contains_any ns s

abbrev pub lock_errors : List Text
lock_errors =
    codes "could not get lock /var/lib/dpkg"
    ∷ codes "could not get lock /var/lib/apt"
    ∷ codes "could not open lock file /var/lib/dpkg"
    ∷ codes "dpkg was interrupted"
    ∷ codes "e: unable to acquire the dpkg frontend lock"
    ∷ []

abbrev pub network_errors : List Text
network_errors =
    codes "connection timed out"
    ∷ codes "temporary failure in name resolution"
    ∷ codes "could not resolve host"
    ∷ codes "network is unreachable"
    ∷ []

-- `trim_start_matches("sudo")`, which takes the word away as often as it stands there
unfoldable pub trim_sudo : Text → Text
trim_sudo (a ∷ b ∷ c ∷ d ∷ s) =
    let rest = trim_sudo s in
    if starts_with (codes "sudo") (a ∷ b ∷ c ∷ d ∷ s) then rest else a ∷ b ∷ c ∷ d ∷ s
trim_sudo s = s

module _ (is_whitespace : ℕ → Bool) where
  unfoldable pub failed_tool : Text → Text
  unfolding trim_sudo trim_start first_token
  failed_tool cmd = first_token is_whitespace (trim_start is_whitespace (trim_sudo cmd))

  -- the tests behind the one for permissions
  unfoldable pub classify_rest : Text → Option RecoveryAction
  unfolding contains_any
  classify_rest combined =
      if contains_any network_errors combined
      then some (retry_after_delay 5)
      else if contains_any
          (codes "address already in use" ∷ codes "bind: address already in use" ∷ []) combined
      then some unrecoverable
      else none

  unfoldable pub classify_error :
      (to_lowercase : Text → Text)
      → SudoersStatus
      → (cmd stdout stderr : Text) → Option RecoveryAction
  unfolding contains contains_any is_in_sudoers_list is_active failed_tool classify_rest
  classify_error to_lowercase status cmd stdout stderr =
      let combined = to_lowercase (stdout ++ b'\n' ∷ stderr) in
      let tool = failed_tool cmd in
      if contains_any lock_errors combined
      then some (retry_after_delay 8)
      else if contains (codes "eacces: permission denied") combined
          && contains (codes "npm") combined
      then some (retry_with_flag (codes "--prefix ~/.local"))
      else if contains (codes "externally-managed-environment") combined
      then some (retry_with_flag (codes "--break-system-packages"))
      else if contains (codes "permission denied") combined
          && (is_in_sudoers_list tool && is_active status)
      then some (retry_with_sudo tool)
      else classify_rest combined

  -- the flag behind the first word
  unfoldable pub apply_flag : Text → Text → Text
  unfolding tokenize join
  apply_flag cmd flag = elim (tokenize is_whitespace cmd) [
    | [] ↦ cmd
    | w ∷ ws ↦ join (w ∷ flag ∷ ws)
  ]

-- ===== src/Tests/Permissions.antt =====
-- Commands that are rewritten.
use ferrite_mcp.Prelude.{
  ℕ, ◌≡◌, refl, Bool, some, [], ◌==◌, ◌||◌, codes, text_eq, elem, starts_with,
}
use ferrite_mcp.Permissions.Rewrite.{active, missing, rewrite_by, rewrite_command}
use ferrite_mcp.Permissions.Rules.{tool_rule}
use ferrite_mcp.Permissions.Recovery.{classify_error, retry_after_delay}
use ferrite_mcp.Permissions.Twice.{rewrite_by_twice}

abbrev blank : ℕ → Bool
blank c = c == b' ' || c == b'\n'

rewrite_by_twice_example :
    rewrite_by blank
      (tool_rule (codes "apt")).0
      (rewrite_by blank (tool_rule (codes "apt")).0 (codes "apt install curl"))
    ≡ rewrite_by blank (tool_rule (codes "apt")).0 (codes "apt install curl")
rewrite_by_twice_example = rewrite_by_twice blank refl (codes "apt") (codes "apt install curl") refl

install_example :
    (rewrite_command blank missing (codes "cd x && apt install curl | tee log")).0
    ≡ codes "cd x && apt install -q -y curl | tee log"
unfolding rewrite_command text_eq elem starts_with
install_example = refl

-- The user of a `sudo -u` is lost: the command runs as root.
sudo_user_example : (rewrite_command blank active (codes "sudo -u bob id")).0 ≡ codes "sudo id"
unfolding rewrite_command text_eq elem starts_with
sudo_user_example = refl

-- Quotes do not protect a delimiter.
quoted_example : (rewrite_command blank active (codes "echo 'a;b'")).0 ≡ codes "echo 'a ; b'"
unfolding rewrite_command text_eq elem starts_with
quoted_example = refl

-- The end of a case is torn apart.
case_end_example :
    (rewrite_command blank active (codes "case x in x) ls;; esac")).0
    ≡ codes "case x in x) ls ;  ; esac"
unfolding rewrite_command text_eq elem starts_with
case_end_example = refl

-- A line break is joined.
two_lines_example :
    (rewrite_command blank missing (codes "apt install curl\nls")).0
    ≡ codes "apt install -q -y curl ls"
unfolding rewrite_command text_eq elem starts_with
two_lines_example = refl

lock_example :
    classify_error blank (λ t. t) missing (codes "apt update") [] (codes "dpkg was interrupted")
    ≡ some (retry_after_delay 8)
unfolding classify_error starts_with
lock_example = refl

-- ===== src/Runtime/Env.antt =====
-- crates/shell-core/src/env.rs, state.rs and `ExitStatus` of types.rs.
use ferrite_mcp.Prelude.{
  ◌≡◌, refl, Bool, false, ◌||◌, Option, none, some, arith, if◌then◌else◌, Text, text_eq,
}
use ferrite_mcp.Dict
use ferrite_mcp.Dict.{Dict, get-remove, get-insert}

pub record ShellEnv : Type 0 where
  pub vars : Dict Text
  pub exported : Dict Text

abbrev pub or_else {ℓ} : {A : Type ℓ} → Option A → Option A → Option A
or_else (some a) o = some a
or_else none o = o

unfoldable pub get : ShellEnv → Text → Option Text
get e k = or_else (Dict.get e.vars k) (Dict.get e.exported k)

unfoldable pub set : ShellEnv → Text → Text → ShellEnv
set e k v = record e { vars = Dict.insert e.vars k v }

unfoldable pub export : ShellEnv → Text → Text → ShellEnv
export e k v = record { vars = Dict.remove e.vars k; exported = Dict.insert e.exported k v }

unfoldable pub unset : ShellEnv → Text → ShellEnv
unset e k = record { vars = Dict.remove e.vars k; exported = Dict.remove e.exported k }

unfoldable pub is_exported : ShellEnv → Text → Bool
is_exported e k = Dict.contains_key e.exported k

-- A variable has one value, and `get` shows the last one that `set` or `export` gave it.
pub get-set :
    (e : ShellEnv) (k j v : Text) → get (set e k v) j ≡ (if text_eq k j then some v else get e j)
unfolding get set
get-set e k j v = ground (arith, get-insert e.vars k j v)

pub get-export :
    (e : ShellEnv) (k j v : Text) → get (export e k v) j ≡ (if text_eq k j then some v else get e j)
unfolding get export
get-export e k j v = ground (arith, get-remove e.vars k j, get-insert e.exported k j v)

pub get-unset :
    (e : ShellEnv) (k j : Text) → get (unset e k) j ≡ (if text_eq k j then none else get e j)
unfolding get unset
get-unset e k j = ground (arith, get-remove e.vars k j, get-remove e.exported k j)

pub is_exported-set : (e : ShellEnv) (k j v : Text) → is_exported (set e k v) j ≡ is_exported e j
unfolding is_exported set
is_exported-set e k j v = refl

pub is_exported-export :
    (e : ShellEnv) (k j v : Text) → is_exported (export e k v) j ≡ (text_eq k j || is_exported e j)
unfolding is_exported export
is_exported-export e k j v = ground (arith, get-insert e.exported k j v)

pub is_exported-unset :
    (e : ShellEnv) (k j : Text)
    → is_exported (unset e k) j ≡ (if text_eq k j then false else is_exported e j)
unfolding is_exported unset
is_exported-unset e k j = ground (arith, get-remove e.exported k j)

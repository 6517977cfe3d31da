-- ===== src/Runtime/Builtins.antt =====
-- crates/shell-runtime/src/builtins: `cd`, `echo`, `export`, `exit`, `pwd`.
use ferrite_mcp.Prelude.{
  ℕ, zero, suc, ◌+◌, ◌-◌, ◌*◌, ◌^◌, ◌&&◌, Option, none, some, List, [], ◌∷◌, ◌++◌, ltb, leb, ◌==◌,
  if◌then◌else◌, Text, codes, text_eq,
}
use ferrite_mcp.Runtime.Env
use ferrite_mcp.Runtime.State.{ℤ, pos, negsuc, ExitStatus, status, ShellState, Os}
use ferrite_mcp.Runtime.Expand.{get_or}

pub data Builtin : Type 0 where
  cd echo export exit pwd : Builtin

unfoldable pub lookup : Text → Option Builtin
lookup name =
    if text_eq name (codes "cd")
    then some cd
    else if text_eq name (codes "echo")
    then some echo
    else if text_eq name (codes "export")
    then some export
    else if text_eq name (codes "exit")
    then some exit
    else if text_eq name (codes "pwd")
    then some pwd
    else none

-- `split_once('=')`
unfoldable pub split_once : ℕ → Text → Option (Text × Text)
split_once sep [] = none
split_once sep (c ∷ cs) =
    let rest = split_once sep cs in
    if c == sep then some ([], cs) else elim rest [ none ↦ none | some (k, v) ↦ some (c ∷ k, v) ]

-- `join(" ")`
unfoldable pub join_blank : List Text → Text
join_blank [] = []
join_blank (s ∷ []) = s
join_blank (s ∷ t ∷ ts) = s ++ (b' ' ∷ join_blank (t ∷ ts))

abbrev digits : ℕ → Text → Option ℕ
digits n [] = some n
digits n (c ∷ cs) =
    let rest = digits (n * 10 + (c - b'0')) cs in if leb b'0' c && leb c b'9' then rest else none

abbrev number : Text → Option ℕ
number [] = none
number (c ∷ cs) = digits 0 (c ∷ cs)

abbrev below : ℕ → ℕ → Option ℕ
below bound n = if ltb n bound then some n else none

abbrev and_then {ℓ κ} : {A : Type ℓ} {B : Type κ} → Option A → (A → Option B) → Option B
and_then none f = none
and_then (some a) f = f a

abbrev opposite : ℕ → ℤ
opposite zero = pos 0
opposite (suc n) = negsuc n

-- `str::parse::<i32>`: an optional sign and decimal digits, in the range of 32 bits
unfoldable pub parse_i32 : Text → Option ℤ
parse_i32 [] = none
parse_i32 (c ∷ cs) =
    if c == b'-'
    then and_then (number cs) (λ n. and_then (below (2 ^ 31 + 1) n) (λ m. some (opposite m)))
    else and_then (if c == b'+' then number cs else number (c ∷ cs))
        (λ n. and_then (below (2 ^ 31) n) (λ m. some (pos m)))

module _ (os : Os) where
  open os use {World, set_current_dir, canonicalize, set_var, print}

  -- What running a command does: the shell goes on with a status, or the process ends.
  pub data Ran : Type 0 where
    running : ExitStatus → ShellState → World → Ran
    exited : ℤ → World → Ran

  abbrev pub set_env : ShellState → Env.ShellEnv → ShellState
  set_env s e = record s { env = e }

  -- `Cd::run`
  unfoldable pub run_cd : List Text → ShellState → World → Ran
  run_cd args s w =
      let target : Text = elim args [
        | [] ↦ get_or (codes "/") (Env.get s.env (codes "HOME"))
        | path ∷ rest ↦ path
      ] in
      let (moved, w') = set_current_dir target w in
      if moved
      then running (status 0) (record s { cwd = get_or target (canonicalize target w') }) w'
      else running (status 1) s w'

  abbrev echoed : List Text → Text
  echoed [] = codes "\n"
  echoed (a ∷ rest) =
      if text_eq a (codes "-n") then join_blank rest else join_blank (a ∷ rest) ++ codes "\n"

  -- `Echo::run`
  unfoldable pub run_echo : List Text → ShellState → World → Ran
  run_echo args s w = running (status 0) s (print (echoed args) w)

  -- One argument of `export`: `k=v` sets, and a bare name marks a variable that is set.
  unfoldable pub export_one : Text → ShellState → World → ShellState × World
  export_one arg s w = elim (split_once b'=' arg) [
    | some (k, v) ↦ (set_env s (Env.export s.env k v), set_var k v w)
    | none ↦ elim (Env.get s.env arg) [
      | some v ↦ (set_env s (Env.export s.env arg v), w)
      | none ↦ (s, w)
    ]
  ]

  -- `Export::run`
  unfoldable pub run_export : List Text → ShellState → World → Ran
  run_export [] s w = running (status 0) s w
  run_export (a ∷ args) s w = let (s', w') = export_one a s w in run_export args s' w'

  abbrev exit_code : List Text → ℤ
  exit_code [] = pos 0
  exit_code (a ∷ rest) = get_or (pos 0) (parse_i32 a)

  -- `run` of the trait `Builtin`
  unfoldable pub run_builtin : Builtin → List Text → ShellState → World → Ran
  run_builtin cd args s w = run_cd args s w
  run_builtin echo args s w = run_echo args s w
  run_builtin export args s w = run_export args s w
  run_builtin exit args s w = exited (exit_code args) w
  run_builtin pwd args s w = running (status 0) s (print (s.cwd ++ codes "\n") w)

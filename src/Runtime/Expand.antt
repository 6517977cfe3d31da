-- ===== src/Runtime/Expand.antt =====
-- crates/shell-runtime/src/expand.rs: the expansion of a word.
use ferrite_mcp.Prelude.{
  ℕ, zero, suc, Bool, ◌&&◌, ◌||◌, Option, none, some, [], ◌∷◌, ◌++◌, ◌==◌, if◌then◌else◌, Text,
  codes, length,
}
use ferrite_mcp.Runtime.Env.{ShellEnv, get}

abbrev pub get_or {ℓ} : {A : Type ℓ} → A → Option A → A
get_or d none = d
get_or d (some a) = a

-- a leading `~` alone or before `/`
unfoldable pub expand_tilde : Text → ShellEnv → Text
expand_tilde [] env = []
expand_tilde (c ∷ []) env =
    if c == b'~' then get_or (codes "/") (get env (codes "HOME")) else c ∷ []
expand_tilde (c ∷ d ∷ ds) env =
    if c == b'~' && d == b'/'
    then get_or (codes "/") (get env (codes "HOME")) ++ (d ∷ ds)
    else c ∷ d ∷ ds

-- `take_while(|&c| c != '}')`: the name, and the text behind the brace, which is consumed
unfoldable pub braced : Text → Text × Text
braced [] = ([], [])
braced (c ∷ cs) = let (name, rest) = braced cs in if c == b'}' then ([], cs) else (c ∷ name, rest)

module _ (alphanumeric : ℕ → Bool) where
  abbrev pub in_name : ℕ → Bool
  in_name c = alphanumeric c || c == b'_'

  unfoldable pub unbraced : Text → Text × Text
  unbraced [] = ([], [])
  unbraced (c ∷ cs) =
      let (name, rest) = unbraced cs in if in_name c then (c ∷ name, rest) else ([], c ∷ cs)

  -- What stands for a `$`, and the text behind it.
  unfoldable pub dollar : ShellEnv → Text → Text × Text
  dollar env [] = (b'$' ∷ [], [])
  dollar env (c ∷ cs) =
      if c == b'{'
      then (let (name, rest) = braced cs in (get_or [] (get env name), rest))
      else if in_name c
      then (let (name, rest) = unbraced (c ∷ cs) in (get_or [] (get env name), rest))
      else if c == b'?'
      then (get_or (codes "0") (get env (codes "?")), cs)
      else (b'$' ∷ [], c ∷ cs)

  -- The loop of `expand_vars`, on fuel; out of fuel it stops with what is left.
  unfoldable pub expand_loop : ℕ → ShellEnv → Text → Text
  expand_loop zero env s = s
  expand_loop (suc f) env [] = []
  expand_loop (suc f) env (c ∷ cs) =
      let (value, rest) = dollar env cs in
      let expanded = value ++ expand_loop f env rest in
      let plain = c ∷ expand_loop f env cs in if c == b'$' then expanded else plain

  unfoldable pub expand_vars : Text → ShellEnv → Text
  expand_vars s env = expand_loop (length s) env s

  -- `expand_word` never fails, and gives one word.
  unfoldable pub expand_word : Text → ShellEnv → Text
  expand_word word env = expand_vars (expand_tilde word env) env

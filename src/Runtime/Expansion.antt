-- ===== src/Runtime/Expansion.antt =====
-- What expansion does to the words of a command.
use ferrite_mcp.Prelude.{
  ℕ, zero, suc, ◌≤◌, ◌≡◌, refl, ap, ◌∙◌, Bool, true, false, not, ◌&&◌, some, [], ◌∷◌, ◌++◌,
  append-nil, arith, ◌==◌, Bool-cases, inl, inr, Text, length,
}
use ferrite_mcp.Lexer.Token.{single_quoted}
use ferrite_mcp.Parser.Ast.{WordPart, literal, variable, Word}
use ferrite_mcp.Parser.Parse.{Tokens, ok, word_of}
use ferrite_mcp.Runtime.Env.{ShellEnv, get}
use ferrite_mcp.Runtime.Expand.{
  get_or, expand_tilde, braced, in_name, unbraced, dollar, expand_loop, expand_vars, expand_word,
}
use ferrite_mcp.Runtime.Execute.{part_text, expand_words}

abbrev pub all : (ℕ → Bool) → Text → Bool
all p [] = true
all p (c ∷ cs) = p c && all p cs

-- a text in which expansion finds nothing
abbrev pub is_inert : Text → Bool
is_inert [] = true
is_inert (c ∷ cs) = not (c == b'~') && all (λ d. not (d == b'$')) (c ∷ cs)

braced-length : (s : Text) → length (braced s).1 ≤ length s
unfolding braced
braced-length [] = omega arith
braced-length (c ∷ cs) = ground (arith, braced-length cs)

module _ (alphanumeric : ℕ → Bool) where
  unbraced-length : (s : Text) → length (unbraced alphanumeric s).1 ≤ length s
  unfolding unbraced
  unbraced-length [] = omega arith
  unbraced-length (c ∷ cs) = ground (arith, unbraced-length cs)

  dollar-length : (env : ShellEnv) (s : Text) → length (dollar alphanumeric env s).1 ≤ length s
  unfolding dollar
  dollar-length env [] = omega arith
  dollar-length env (c ∷ cs) = ground (arith, braced-length cs, unbraced-length (c ∷ cs))

  -- More fuel than characters changes nothing.
  expand_loop-fuel :
      (f g : ℕ) (env : ShellEnv) (s : Text)
      → length s ≤ f
      → length s ≤ g
      → expand_loop alphanumeric f env s ≡ expand_loop alphanumeric g env s
  unfolding expand_loop
  expand_loop-fuel zero zero env s h k = refl
  expand_loop-fuel zero (suc g) env [] h k = refl
  expand_loop-fuel zero (suc g) env (c ∷ cs) h k = absurd (omega arith)
  expand_loop-fuel (suc f) zero env [] h k = refl
  expand_loop-fuel (suc f) zero env (c ∷ cs) h k = absurd (omega arith)
  expand_loop-fuel (suc f) (suc g) env [] h k = refl
  expand_loop-fuel (suc f) (suc g) env (c ∷ cs) h k = elim (Bool-cases (c == b'$')) [
    | inl found ↦
        let (value, rest) = dollar alphanumeric env cs in
        rw found (
          ap (λ (t : Text). value ++ t)
            (expand_loop-fuel f g env rest (omega (arith, dollar-length env cs))
              (omega (arith, dollar-length env cs))))
    | inr plain ↦ rw plain (ap (◌∷◌ c) (expand_loop-fuel f g env cs (omega arith) (omega arith)))
  ]

  expand_loop-inert :
      (f : ℕ) (env : ShellEnv) (s : Text)
      → all (λ d. not (d == b'$')) s ≡ true
      → expand_loop alphanumeric f env s ≡ s
  unfolding expand_loop
  expand_loop-inert zero env s h = refl
  expand_loop-inert (suc f) env [] h = refl
  expand_loop-inert (suc f) env (c ∷ cs) h = ground (arith, expand_loop-inert f env cs)

  expand_tilde-inert : (env : ShellEnv) (s : Text) → is_inert s ≡ true → expand_tilde s env ≡ s
  unfolding expand_tilde
  expand_tilde-inert env [] h = refl
  expand_tilde-inert env (c ∷ []) h = ground arith
  expand_tilde-inert env (c ∷ d ∷ ds) h = ground arith

  inert-all : (s : Text) → is_inert s ≡ true → all (λ d. not (d == b'$')) s ≡ true
  inert-all [] h = refl
  inert-all (c ∷ cs) h = ground arith

  -- A text with no `$` that does not begin with `~` is expanded to itself.
  pub expand_word-inert :
      (env : ShellEnv) (s : Text) → is_inert s ≡ true → expand_word alphanumeric s env ≡ s
  unfolding expand_word expand_vars
  expand_word-inert env s h =
      rw (expand_tilde-inert env s h) (expand_loop-inert (length s) env s (inert-all s h))

  unbraced-all :
      (s : Text) → all (in_name alphanumeric) s ≡ true → unbraced alphanumeric s ≡ (s, [])
  unfolding unbraced
  unbraced-all [] h = refl
  unbraced-all (c ∷ cs) h = ground (arith, unbraced-all cs)

  and-true : (x y : Bool) → x && y ≡ true → x ≡ true
  and-true x y h = ground arith

  dollar-name :
      (env : ShellEnv) (c : ℕ) (cs : Text)
      → all (in_name alphanumeric) (c ∷ cs) ≡ true
      → (c == b'{') ≡ false
      → dollar alphanumeric env (c ∷ cs) ≡ (get_or [] (get env (c ∷ cs)), [])
  unfolding dollar
  dollar-name env c cs h k = rw (
    k,
    and-true (in_name alphanumeric c) (all (in_name alphanumeric) cs) h,
    unbraced-all (c ∷ cs) h,
  )

  -- `$NAME` alone, for a name that does not begin like `${`
  expand_name :
      (env : ShellEnv) (c : ℕ) (cs : Text)
      → all (in_name alphanumeric) (c ∷ cs) ≡ true
      → (c == b'{') ≡ false
      → expand_word alphanumeric (b'$' ∷ c ∷ cs) env ≡ get_or [] (get env (c ∷ cs))
  unfolding expand_word expand_vars expand_tilde expand_loop
  expand_name env c cs h k = rw (dollar-name env c cs h k, append-nil)

  -- The argument that a command gets for a word that is one part.
  expand_words-part :
      (env : ShellEnv) (p : WordPart)
      → expand_words alphanumeric env (record { parts = p ∷ [] } ∷ [])
        ≡ expand_word alphanumeric (part_text env p) env ∷ []
  unfolding expand_words
  expand_words-part env p = rw append-nil

  -- Between single quotes `$NAME` is replaced by the value of the variable all the same, for every
  -- name that does not begin with a brace: the argument of `'$NAME'` is the value of `NAME`.
  pub single_quotes_expand :
      (env : ShellEnv) (c : ℕ) (cs : Text) (rest : Tokens)
      → all (in_name alphanumeric) (c ∷ cs) ≡ true
      → (c == b'{') ≡ false
      → (w : Word) × (word_of (single_quoted (b'$' ∷ c ∷ cs)) rest ≡ ok w rest)
        × (expand_words alphanumeric env (w ∷ []) ≡ get_or [] (get env (c ∷ cs)) ∷ [])
  unfolding word_of
  single_quotes_expand env c cs rest h k = (
    record { parts = literal (b'$' ∷ c ∷ cs) ∷ [] },
    refl,
    expand_words-part env (literal (b'$' ∷ c ∷ cs))
        ∙ ap (λ (t : Text). t ∷ []) (expand_name env c cs h k),
  )

  -- The value of a variable is expanded once more: if `A` holds `$NAME`, the argument of `$A` is the
  -- value of `NAME`, for every name that does not begin with a brace.
  pub values_expand :
      (env : ShellEnv) (a : Text) (c : ℕ) (cs : Text)
      → get env a ≡ some (b'$' ∷ c ∷ cs)
      → all (in_name alphanumeric) (c ∷ cs) ≡ true
      → (c == b'{') ≡ false
      → expand_words alphanumeric env (record { parts = variable a ∷ [] } ∷ [])
        ≡ get_or [] (get env (c ∷ cs)) ∷ []
  values_expand env a c cs e h k =
      expand_words-part env (variable a)
      ∙ rw e (ap (λ (t : Text). t ∷ []) (expand_name env c cs h k))

-- ===== src/Parser/Total.antt =====
-- On tokens that end with `Eof`, as the lexer's do, the parser neither panics nor loops.
use ferrite_mcp.Prelude.{
  ℕ, zero, suc, ◌+◌, ◌≤◌, ◌<◌, ◌≡◌, ◌≢◌, Bool, true, false, List, [], ◌∷◌, ◌++◌, arith,
  if◌then◌else◌, length,
}
use ferrite_mcp.Lexer.Token.{TokenKind, eof, newline, pipe}
use ferrite_mcp.Parser.Ast.{Separator, end_of_input, Word, Redirect, Command, ListItem, CommandList}
use ferrite_mcp.Parser.Parse.{
  ParseError, Tokens, Outcome, ok, err, ◌>>=◌, peek, advance, behind, skip_newlines,
  parse_separator, word_of, parse_word, redirect_of, parse_redirect, Turn, stop, redirect, argument,
  turn, finish_command, command_turn, command_loop, pipe_loop, is_bang, parse_commands,
  parse_pipeline, list_next, list_item, list_loop, parse_tokens,
}

abbrev pub EndsEof : Tokens → Type 0
EndsEof [] = ⊥
EndsEof (t ∷ []) = t ≡ eof
EndsEof (t ∷ u ∷ ts) = EndsEof (u ∷ ts)

-- An error, or a result with `Eof` still last and at least `n` tokens consumed.
pub data Parses {A : Type 0} (n : ℕ) (ts : Tokens) : Outcome A → Type 0 where
  parsed :
      {a : A} {rest : Tokens} → EndsEof rest → length rest + n ≤ length ts → Parses n ts (ok a rest)
  rejected : {e : ParseError} → Parses n ts (err e)

module _ {A B : Type 0} where
  Parses-bind :
      (k : ℕ) {j n : ℕ} {ts : Tokens} {m : Outcome A} (f : A × Tokens → Outcome B)
      → n ≤ j + k
      → Parses j ts m
      → ((a : A) (rest : Tokens)
          → EndsEof rest
          → length rest + j ≤ length ts
          → Parses k rest (f (a, rest)))
      → Parses n ts (m >>= f)
  Parses-bind k f h rejected next = rejected
  Parses-bind k {n = n} {ts = ts} f h (parsed {a} {rest} e l) next = weaken (next a rest e l)
    where
      weaken : {r : Outcome B} → Parses k rest r → Parses n ts r
      weaken rejected = rejected
      weaken (parsed e' l') = parsed e' (omega arith)

behind-EndsEof : (ts : Tokens) → EndsEof ts → EndsEof (behind ts)
behind-EndsEof [] e = e
behind-EndsEof (t ∷ []) e = e
behind-EndsEof (t ∷ u ∷ ts) e = e

-- Behind a token that is not `Eof` the list is shorter.
length-behind : (ts : Tokens) → EndsEof ts → peek ts ≢ eof → length (behind ts) + 1 ≤ length ts
length-behind [] e h = absurd e
length-behind (t ∷ []) e h = absurd (h e)
length-behind (t ∷ u ∷ ts) e h = omega arith

length-behind-le : (ts : Tokens) → length (behind ts) ≤ length ts
length-behind-le [] = omega arith
length-behind-le (t ∷ []) = omega arith
length-behind-le (t ∷ u ∷ ts) = omega arith

skip_newlines-Parses :
    (f : ℕ) (ts : Tokens) → EndsEof ts → length ts < f → Parses 0 ts (skip_newlines f ts)
unfolding skip_newlines
skip_newlines-Parses zero ts e h = elim h [ ]
skip_newlines-Parses (suc f) [] e h = absurd e
skip_newlines-Parses (suc f) (newline ∷ []) e h = cc
skip_newlines-Parses (suc f) (newline ∷ u ∷ ts) e h =
    later (skip_newlines-Parses f (u ∷ ts) e (omega arith))
  where
    later : {r : Outcome Unit} → Parses 0 (u ∷ ts) r → Parses 0 (newline ∷ u ∷ ts) r
    later (parsed e' l) = parsed e' (omega arith)
    later rejected = rejected
skip_newlines-Parses (suc f) (t ∷ ts) e h = parsed e (omega arith)

word_of-Parses : (t : TokenKind) (ts : Tokens) → EndsEof ts → Parses 0 ts (word_of t ts)
unfolding word_of
word_of-Parses (TokenKind.word s) ts e = parsed e (omega arith)
word_of-Parses (TokenKind.single_quoted s) ts e = parsed e (omega arith)
word_of-Parses (TokenKind.double_quoted s) ts e = parsed e (omega arith)
word_of-Parses (TokenKind.variable s) ts e = parsed e (omega arith)
word_of-Parses (TokenKind.cmd_subst s) ts e = parsed e (omega arith)
word_of-Parses _ ts e = rejected

-- A word is never `Eof`, so reading one consumes a token.
parse_word-Parses : (ts : Tokens) → EndsEof ts → Parses 1 ts (parse_word ts)
unfolding parse_word
parse_word-Parses [] e = absurd e
parse_word-Parses (t ∷ []) e = rw e rejected
parse_word-Parses (t ∷ u ∷ ts) e = shorter (word_of-Parses t (u ∷ ts) e)
  where
    shorter : {r : Outcome Word} → Parses 0 (u ∷ ts) r → Parses 1 (t ∷ u ∷ ts) r
    shorter (parsed e' l) = parsed e' (omega arith)
    shorter rejected = rejected

redirect_of-Parses : (t : TokenKind) (ts : Tokens) → EndsEof ts → Parses 0 ts (redirect_of t ts)
unfolding redirect_of
redirect_of-Parses TokenKind.gt ts e = parsed e (omega arith)
redirect_of-Parses TokenKind.gt_gt ts e = parsed e (omega arith)
redirect_of-Parses TokenKind.lt ts e = parsed e (omega arith)
redirect_of-Parses TokenKind.gt_ampersand ts e = parsed e (omega arith)
redirect_of-Parses (TokenKind.fd_gt n) ts e = parsed e (omega arith)
redirect_of-Parses (TokenKind.fd_gt_gt n) ts e = parsed e (omega arith)
redirect_of-Parses _ ts e = rejected

advance-Parses : (ts : Tokens) → EndsEof ts → Parses 0 ts (advance ts)
advance-Parses [] e = absurd e
advance-Parses (t ∷ []) e = parsed e (omega arith)
advance-Parses (t ∷ u ∷ ts) e = parsed e (omega arith)

parse_redirect-Parses : (ts : Tokens) → EndsEof ts → Parses 1 ts (parse_redirect ts)
unfolding parse_redirect
parse_redirect-Parses ts e = Parses-bind 1 _ (omega arith) (advance-Parses ts e) λ t at_kind e1 l1.
    Parses-bind 1 _ (omega arith) (redirect_of-Parses t at_kind e1) λ r at_target e2 l2.
      Parses-bind 0 _ (omega arith) (parse_word-Parses at_target e2)
        λ w rest e3 l3. parsed e3 (omega arith)

finish_command-Parses :
    (ws : List Word) (rs : List Redirect) (ts : Tokens)
    → EndsEof ts
    → Parses 0 ts (finish_command ws rs ts)
unfolding finish_command
finish_command-Parses [] [] ts e = rejected
finish_command-Parses [] (r ∷ rs) ts e = parsed e (omega arith)
finish_command-Parses (w ∷ ws) rs ts e = parsed e (omega arith)

command_turn-Parses :
    (again : List Word → List Redirect → Tokens → Outcome Command) (t : Turn) (ws : List Word)
    (rs : List Redirect) (ts : Tokens)
    → EndsEof ts
    → ((ws' : List Word) (rs' : List Redirect) (rest : Tokens)
        → EndsEof rest
        → length rest < length ts
        → Parses 0 rest (again ws' rs' rest))
    → Parses 0 ts (command_turn again t ws rs ts)
unfolding command_turn
command_turn-Parses again stop ws rs ts e ih = finish_command-Parses ws rs ts e
command_turn-Parses again redirect ws rs ts e ih =
    Parses-bind 0 _ (omega arith) (parse_redirect-Parses ts e)
      λ r rest e' l. ih ws (rs ++ r ∷ []) rest e' (omega arith)
command_turn-Parses again argument ws rs ts e ih =
    Parses-bind 0 _ (omega arith) (parse_word-Parses ts e)
      λ w rest e' l. ih (ws ++ w ∷ []) rs rest e' (omega arith)

command_loop-Parses :
    (f : ℕ) (ws : List Word) (rs : List Redirect) (ts : Tokens)
    → EndsEof ts
    → length ts < f
    → Parses 0 ts (command_loop f ws rs ts)
unfolding command_loop
command_loop-Parses zero ws rs ts e h = elim h [ ]
command_loop-Parses (suc f) ws rs ts e h =
    command_turn-Parses (command_loop f) (turn (peek ts)) ws rs ts e
      λ ws' rs' rest e' l. command_loop-Parses f ws' rs' rest e' (omega arith)

-- A command consumes a token: a loop that stops at once has found nothing, which is an error.
command-Parses :
    (f : ℕ) (ts : Tokens) → EndsEof ts → length ts < f → Parses 1 ts (command_loop f [] [] ts)
unfolding command_loop command_turn finish_command
command-Parses zero ts e h = elim h [ ]
command-Parses (suc f) ts e h = first (turn (peek ts))
  where
    first : (t : Turn) → Parses 1 ts (command_turn (command_loop f) t [] [] ts)
    first stop = rejected
    first redirect =
        Parses-bind 0 _ (omega arith) (parse_redirect-Parses ts e)
          λ r rest e' l. command_loop-Parses f [] (r ∷ []) rest e' (omega arith)
    first argument =
        Parses-bind 0 _ (omega arith) (parse_word-Parses ts e)
          λ w rest e' l. command_loop-Parses f (w ∷ []) [] rest e' (omega arith)

pipe_loop-Parses :
    (f : ℕ) (cs : List Command) (ts : Tokens)
    → EndsEof ts
    → length ts < f
    → Parses 0 ts (pipe_loop f cs ts)
unfolding pipe_loop
pipe_loop-Parses zero cs ts e h = elim h [ ]
pipe_loop-Parses (suc f) cs [] e h = absurd e
pipe_loop-Parses (suc f) cs (pipe ∷ []) e h = cc
pipe_loop-Parses (suc f) cs (pipe ∷ u ∷ ts) e h =
    Parses-bind 0 _ (omega arith) (shorter (skip_newlines-Parses (suc f) (u ∷ ts) e (omega arith)))
      λ v at_command e1 l1.
        Parses-bind 0 _ (omega arith) (command-Parses (suc f) at_command e1 (omega arith))
          λ c rest e2 l2. pipe_loop-Parses f (cs ++ c ∷ []) rest e2 (omega arith)
  where
    shorter : {r : Outcome Unit} → Parses 0 (u ∷ ts) r → Parses 0 (pipe ∷ u ∷ ts) r
    shorter (parsed e' l) = parsed e' (omega arith)
    shorter rejected = rejected
pipe_loop-Parses (suc f) cs (t ∷ ts) e h = parsed e (omega arith)

behind_bang-Parses : (b : Bool) (ts : Tokens) → EndsEof ts → EndsEof (if b then behind ts else ts)
behind_bang-Parses true ts e = behind-EndsEof ts e
behind_bang-Parses false ts e = e

length-behind_bang : (b : Bool) (ts : Tokens) → length (if b then behind ts else ts) ≤ length ts
length-behind_bang true ts = length-behind-le ts
length-behind_bang false ts = omega arith

parse_commands-Parses :
    (f : ℕ) (ts : Tokens) → EndsEof ts → length ts < f → Parses 1 ts (parse_commands f ts)
unfolding parse_commands
parse_commands-Parses f ts e h =
    Parses-bind 0 _ (omega arith) (command-Parses f ts e h)
      λ c rest e1 l1. pipe_loop-Parses f (c ∷ []) rest e1 (omega arith)

parse_pipeline-Parses :
    (f : ℕ) (ts : Tokens) → EndsEof ts → length ts < f → Parses 1 ts (parse_pipeline f ts)
unfolding parse_pipeline
parse_pipeline-Parses f ts e h =
    let b = is_bang (peek ts) in
    let short = length-behind_bang b ts in
    Parses-bind 0 _ (omega arith)
      (longer short (
        parse_commands-Parses f (if b then behind ts else ts) (behind_bang-Parses b ts e)
          (omega arith)))
      λ cs rest e1 l1. parsed e1 (omega arith)
  where
    longer :
        {us : Tokens} {r : Outcome (List Command)}
        → length us ≤ length ts
        → Parses 1 us r
        → Parses 1 ts r
    longer k (parsed e' l) = parsed e' (omega arith)
    longer k rejected = rejected

taken : (ts : Tokens) → EndsEof ts → EndsEof (behind ts) × (length (behind ts) ≤ length ts)
taken ts e = (behind-EndsEof ts e, length-behind-le ts)

parse_separator-EndsEof :
    (ts : Tokens)
    → EndsEof ts
    → EndsEof (parse_separator ts).1 × (length (parse_separator ts).1 ≤ length ts)
unfolding parse_separator
parse_separator-EndsEof [] e = absurd e
parse_separator-EndsEof (TokenKind.semi ∷ ts) e = taken (TokenKind.semi ∷ ts) e
parse_separator-EndsEof (newline ∷ ts) e = taken (newline ∷ ts) e
parse_separator-EndsEof (TokenKind.ampersand ∷ ts) e = taken (TokenKind.ampersand ∷ ts) e
parse_separator-EndsEof (TokenKind.and_and ∷ ts) e = taken (TokenKind.and_and ∷ ts) e
parse_separator-EndsEof (TokenKind.or_or ∷ ts) e = taken (TokenKind.or_or ∷ ts) e
parse_separator-EndsEof (t ∷ ts) e = (e, omega arith)

list_next-Parses :
    (f : ℕ) (again : List ListItem → Tokens → Outcome CommandList) (items : List ListItem)
    (s : Separator) (ts : Tokens)
    → EndsEof ts
    → length ts < f
    → ((rest : Tokens) → EndsEof rest → length rest ≤ length ts → Parses 0 rest (again items rest))
    → Parses 0 ts (list_next f again items s ts)
unfolding list_next
list_next-Parses f again items end_of_input ts e h ih = parsed e (omega arith)
list_next-Parses f again items _ ts e h ih =
    Parses-bind 0 _ (omega arith) (skip_newlines-Parses f ts e h)
      λ u rest e' l. ih rest e' (omega arith)

item-Parses :
    (f : ℕ) (items : List ListItem) (ts : Tokens)
    → EndsEof ts
    → length ts < suc f
    → ((items' : List ListItem) (rest : Tokens)
        → EndsEof rest
        → length rest < length ts
        → Parses 0 rest (list_loop f items' rest))
    → Parses 0 ts (list_item (suc f) (list_loop f) items ts)
unfolding list_item
item-Parses f items ts e h ih =
    Parses-bind 0 _ (omega arith) (parse_pipeline-Parses (suc f) ts e h) λ p rest e1 l1.
      let (e2, l2) = parse_separator-EndsEof rest e1 in
      shorter l2 (
        list_next-Parses (suc f) (list_loop f) _ (parse_separator rest).0 (parse_separator rest).1
          e2 (omega arith) λ next e3 l3. ih _ next e3 (omega arith))
  where
    shorter :
        {us vs : Tokens} {r : Outcome CommandList}
        → length us ≤ length vs
        → Parses 0 us r
        → Parses 0 vs r
    shorter k (parsed e' l) = parsed e' (omega arith)
    shorter k rejected = rejected

list_loop-Parses :
    (f : ℕ) (items : List ListItem) (ts : Tokens)
    → EndsEof ts
    → length ts < f
    → Parses 0 ts (list_loop f items ts)
unfolding list_loop
list_loop-Parses zero items ts e h = elim h [ ]
list_loop-Parses (suc f) items [] e h = absurd e
list_loop-Parses (suc f) items (eof ∷ ts) e h = parsed e (omega arith)
list_loop-Parses (suc f) items (t ∷ ts) e h =
    item-Parses f items _ e h λ items' rest e' l. list_loop-Parses f items' rest e' (omega arith)

pub parse_tokens-Parses :
    (f : ℕ) (ts : Tokens) → EndsEof ts → length ts < f → Parses 0 ts (parse_tokens f ts)
unfolding parse_tokens
parse_tokens-Parses f ts e h =
    Parses-bind 0 _ (omega arith) (skip_newlines-Parses f ts e h)
      λ u rest e' l. list_loop-Parses f [] rest e' (omega arith)

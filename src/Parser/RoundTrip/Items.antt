-- ===== src/Parser/RoundTrip/Items.antt =====
-- Whole command lists: the loop of `Parser::parse` on what Parser/Print writes.
use ferrite_mcp.Prelude.{
  ℕ, zero, suc, ◌≤◌, ◌<◌, ◌≡◌, ◌≢◌, refl, sym, ap, subst, ◌∙◌, Bool, true, false, List, [], ◌∷◌,
  ◌++◌, arith, length, append_assoc, inl, inr, ◌⊎◌,
}
use ferrite_mcp.Lexer.Token.{TokenKind, eof, semi_semi, r_paren, r_brace}
use ferrite_mcp.Parser.Ast.{
  Separator, sequential, background, and_then, or_else, end_of_input, Word, Redirect, Command,
  simple, ListItem, CommandList,
}
use ferrite_mcp.Parser.Parse.{
  Tokens, Outcome, ok, skip_newlines, turn, parse_separator, list_next, list_item, list_loop,
  parse_tokens,
}
use ferrite_mcp.Parser.Print.{
  Style, command_tokens, piped_tokens, pipeline_tokens, separator_tokens, items_tokens,
  words_tokens, redirects_tokens, NonEmpty, PlainCommand, PlainPipeline, Printable, IsOpen,
}
use ferrite_mcp.Parser.RoundTrip.{
  Separates, separator-Separates, list_item-tokens, loop-pipeline, skip-pipeline, length-piped,
  length-words, length-redirects, Starts-command, Starts,
}

-- a token at which the parser gives up on the rest of the input
pub data Closer : TokenKind → Type 0 where
  double_semi : Closer semi_semi
  parenthesis : Closer r_paren
  brace : Closer r_brace

module _ (σ : Style) where
  length-words_lt :
      (ws : List Word) (rs : List Redirect) (rest : Tokens)
      → NonEmpty ws rs
      → length rest < length (words_tokens σ ws (redirects_tokens σ rs rest))
  length-words_lt [] [] rest h = absurd h
  length-words_lt [] (r ∷ rs) rest h = omega (arith, length-redirects σ rs rest)
  length-words_lt (w ∷ ws) rs rest h =
      omega (arith, length-words σ ws (redirects_tokens σ rs rest), length-redirects σ rs rest)

  length-command_lt :
      (c : Command) (rest : Tokens)
      → PlainCommand c
      → length rest < length (command_tokens σ c rest)
  length-command_lt (simple c) rest p = length-words_lt c.words c.redirects rest p.0

  length-pipeline_lt :
      (b : Bool) (cs : List Command) (rest : Tokens)
      → PlainPipeline cs
      → length rest < length (pipeline_tokens σ b cs rest)
  length-pipeline_lt b [] rest p = absurd p
  length-pipeline_lt true (c ∷ cs) rest p =
      omega (arith, length-command_lt c (piped_tokens σ cs rest) p.0, length-piped σ cs rest)
  length-pipeline_lt false (c ∷ cs) rest p =
      omega (arith, length-command_lt c (piped_tokens σ cs rest) p.0, length-piped σ cs rest)

  Starts-cons : (ts : Tokens) → Starts σ ts → (v : TokenKind) × (vs : Tokens) × (ts ≡ v ∷ vs)
  Starts-cons [] h = absurd h
  Starts-cons (v ∷ vs) h = (v, vs, refl)

  pipeline-cons :
      (b : Bool) (cs : List Command) (rest : Tokens)
      → PlainPipeline cs
      → (v : TokenKind) × (vs : Tokens) × (pipeline_tokens σ b cs rest ≡ v ∷ vs)
  pipeline-cons b [] rest p = absurd p
  pipeline-cons true (c ∷ cs) rest p = (_, _, refl)
  pipeline-cons false (c ∷ cs) rest p =
      Starts-cons _ (Starts-command σ c (piped_tokens σ cs rest) p.0)

  Printable-first :
      (j : ListItem) (is : List ListItem) → Printable (j ∷ is) → PlainPipeline j.pipeline.commands
  Printable-first j [] p = p
  Printable-first j (k ∷ is) p = p.0

  -- The token behind the last item: `Eof`, or one that ends an open list.
  abbrev Ends : TokenKind → List ListItem → Type 0
  Ends t is = (t ≡ eof) ⊎ IsOpen is

  separated :
      (s : Separator) (t : TokenKind) (ts : Tokens)
      → Separates σ end_of_input t ts
      → Separates σ s t ts
  separated end_of_input t ts d = d
  separated sequential t ts d = separator-Separates σ sequential t ts (λ e. cc)
  separated background t ts d = separator-Separates σ background t ts (λ e. cc)
  separated and_then t ts d = separator-Separates σ and_then t ts (λ e. cc)
  separated or_else t ts d = separator-Separates σ or_else t ts (λ e. cc)

  last_next :
      (f : ℕ) (items : List ListItem) (i : ListItem) (t : TokenKind) (ts : Tokens)
      → Ends t (i ∷ [])
      → list_next (suc (suc f)) (list_loop (suc f)) items i.separator (t ∷ ts)
        ≡ ok (record { items = items }) (t ∷ ts)
  last_next f items i t ts (inr e) = rw e (unfold list_next in refl)
  last_next f items i t ts (inl e) = rw e (at_eof i.separator)
    where
      at_eof :
          (s : Separator)
          → list_next (suc (suc f)) (list_loop (suc f)) items s (eof ∷ ts)
            ≡ ok (record { items = items }) (eof ∷ ts)
      at_eof s = unfold list_next skip_newlines list_loop in ground arith

  more_next :
      (f : ℕ) (again : List ListItem → Tokens → Outcome CommandList) (items : List ListItem)
      (s : Separator) (ts : Tokens)
      → s ≢ end_of_input
      → skip_newlines f ts ≡ ok tt ts
      → list_next f again items s ts ≡ again items ts
  unfolding list_next
  more_next f again items end_of_input ts h e = absurd (h refl)
  more_next f again items _ ts h e = rw e

  length-separator_le : (s : Separator) (ts : Tokens) → length ts ≤ length (separator_tokens s ts)
  length-separator_le end_of_input ts = omega arith
  length-separator_le sequential ts = omega arith
  length-separator_le background ts = omega arith
  length-separator_le and_then ts = omega arith
  length-separator_le or_else ts = omega arith

  length-separator :
      (s : Separator) (ts : Tokens) → s ≢ end_of_input → length ts < length (separator_tokens s ts)
  length-separator end_of_input ts h = absurd (h refl)
  length-separator sequential ts h = omega arith
  length-separator background ts h = omega arith
  length-separator and_then ts h = omega arith
  length-separator or_else ts h = omega arith

  list_loop-items :
      (is : List ListItem) (i : ListItem) (f : ℕ) (before : List ListItem) (t : TokenKind)
      (ts : Tokens)
      → Printable (i ∷ is)
      → Separates σ end_of_input t ts
      → Ends t (i ∷ is)
      → length (items_tokens σ (i ∷ is) (t ∷ ts)) < f
      → list_loop f before (items_tokens σ (i ∷ is) (t ∷ ts))
        ≡ ok (record { items = before ++ i ∷ is }) (t ∷ ts)
  list_loop-items is i zero before t ts p d e h = elim h [ ]
  list_loop-items [] i (suc zero) before t ts p d e h = absurd (
      omega (
        arith,
        length-pipeline_lt i.pipeline.negate i.pipeline.commands
            (separator_tokens i.separator (t ∷ ts)) p,
        length-separator_le i.separator (t ∷ ts),
      ))
  list_loop-items [] i (suc (suc f)) before t ts p d e h =
      loop-pipeline σ (suc f) before i.pipeline.negate i.pipeline.commands _ p
      ∙ list_item-tokens σ (suc (suc f)) (list_loop (suc f)) before i t ts p
          (separated i.separator t ts d) h
      ∙ last_next f (before ++ i ∷ []) i t ts e
  list_loop-items (j ∷ is) i (suc f) before t ts p d e h =
      let rest = items_tokens σ (j ∷ is) (t ∷ ts) in
      let first = Printable-first j is p.2 in
      let (v, vs, shape) =
        pipeline-cons j.pipeline.negate j.pipeline.commands
          (separator_tokens j.separator (items_tokens σ is (t ∷ ts))) first in
      let line = λ (x : Tokens).
        pipeline_tokens σ i.pipeline.negate i.pipeline.commands (separator_tokens i.separator x) in
      let fits = subst (λ (x : Tokens). length (line x) < suc f) shape h in
      loop-pipeline σ f before i.pipeline.negate i.pipeline.commands _ p.0
      ∙ ap (λ (x : Tokens). list_item (suc f) (list_loop f) before (line x)) shape
      ∙ list_item-tokens σ (suc f) (list_loop f) before i v vs p.0
          (separator-Separates σ i.separator v vs p.1) fits
      ∙ ap (λ (x : Tokens). list_next (suc f) (list_loop f) (before ++ i ∷ []) i.separator x)
          (sym shape)
      ∙ more_next (suc f) (list_loop f) (before ++ i ∷ []) i.separator rest p.1
          (skip-pipeline σ f j.pipeline.negate j.pipeline.commands _ first)
      ∙ list_loop-items is j f (before ++ i ∷ []) t ts p.2 d e (
          omega (
            arith,
            length-pipeline_lt i.pipeline.negate i.pipeline.commands
                (separator_tokens i.separator rest) p.0,
            length-separator i.separator rest p.1,
          ))
      ∙ ap (λ (x : List ListItem). ok (record { items = x }) (t ∷ ts))
          (append_assoc before (i ∷ []) (j ∷ is))

  list_items-Starts :
      (i : ListItem) (is : List ListItem) (f : ℕ) (rest : Tokens)
      → Printable (i ∷ is)
      → skip_newlines (suc f) (items_tokens σ (i ∷ is) rest) ≡ ok tt (items_tokens σ (i ∷ is) rest)
  list_items-Starts i is f rest p =
      skip-pipeline σ f i.pipeline.negate i.pipeline.commands _ (Printable-first i is p)

  -- Behind a list that is written, from the first item on.
  parse_tokens-items :
      (is : List ListItem) (i : ListItem) (f : ℕ) (t : TokenKind) (ts : Tokens)
      → Printable (i ∷ is)
      → Separates σ end_of_input t ts
      → Ends t (i ∷ is)
      → length (items_tokens σ (i ∷ is) (t ∷ ts)) < f
      → parse_tokens f (items_tokens σ (i ∷ is) (t ∷ ts)) ≡ ok (record { items = i ∷ is }) (t ∷ ts)
  unfolding parse_tokens
  parse_tokens-items is i zero t ts p d e h = elim h [ ]
  parse_tokens-items is i (suc f) t ts p d e h =
      rw (list_items-Starts i is f (t ∷ ts) p) (list_loop-items is i (suc f) [] t ts p d e h)

  -- Every command list whose parts are literals and variables, with `<` on descriptor 0 and `>&` on 1, no empty
  -- command or pipeline, and a separator behind each item but perhaps the last, is read back from its tokens with Eof
  -- behind them, given fuel above their number: whichever literals stand bare, between single or between double
  -- quotes, whichever variables stand bare or between quotes, and with `>` and `>>` for descriptor 1 or with the
  -- number. A word of no or several parts stands between double quotes, and so does a `!` that would stand bare.
  pub parse_tokens-items_tokens :
      (is : List ListItem) (f : ℕ)
      → Printable is
      → length (items_tokens σ is (eof ∷ [])) < f
      → parse_tokens f (items_tokens σ is (eof ∷ [])) ≡ ok (record { items = is }) (eof ∷ [])
  parse_tokens-items_tokens [] zero p h = elim h [ ]
  parse_tokens-items_tokens [] (suc f) p h = unfold parse_tokens skip_newlines list_loop in refl
  parse_tokens-items_tokens (i ∷ is) f p h =
      parse_tokens-items is i f eof [] p
        (record {
          first = eof;
          others = [];
          shape = refl;
          stops = unfold turn in refl;
          no_pipe = λ e. cc;
          reads = unfold parse_separator in refl;
        })
        (inl refl) h

  Closer-Separates : (t : TokenKind) (ts : Tokens) → Closer t → Separates σ end_of_input t ts
  unfolding turn parse_separator
  Closer-Separates _ ts double_semi = record {
    first = semi_semi;
    others = ts;
    shape = refl;
    stops = refl;
    no_pipe = λ e. cc;
    reads = refl;
  }
  Closer-Separates _ ts parenthesis = record {
    first = r_paren;
    others = ts;
    shape = refl;
    stops = refl;
    no_pipe = λ e. cc;
    reads = refl;
  }
  Closer-Separates _ ts brace = record {
    first = r_brace;
    others = ts;
    shape = refl;
    stops = refl;
    no_pipe = λ e. cc;
    reads = refl;
  }

  -- Behind a complete list, a stray `;;`, `)` or `}` ends the parse with success: whatever tokens
  -- follow it, the result is the list before it, and no error is reported.
  pub parse_tokens-drops :
      (i : ListItem) (is : List ListItem) (t : TokenKind) (ignored : Tokens) (f : ℕ)
      → Printable (i ∷ is)
      → IsOpen (i ∷ is)
      → Closer t
      → length (items_tokens σ (i ∷ is) (t ∷ ignored)) < f
      → parse_tokens f (items_tokens σ (i ∷ is) (t ∷ ignored))
        ≡ ok (record { items = i ∷ is }) (t ∷ ignored)
  parse_tokens-drops i is t ignored f p o c h =
      parse_tokens-items is i f t ignored p (Closer-Separates t ignored c) (inr o) h

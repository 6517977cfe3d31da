-- ===== src/Parser/RoundTrip.antt =====
-- The parser reads back what Parser/Print writes.
pub mod Items
use ferrite_mcp.Prelude.{
  ℕ, zero, suc, ◌+◌, ◌≤◌, ◌<◌, ◌≡◌, ◌≢◌, refl, sym, ap, subst, ◌∙◌, Bool, true, false, List, [],
  ◌∷◌, ◌++◌, map, arith, Text, codes, text_eq, text_eq_refl, if◌then◌else◌, length, append_assoc,
  append-nil, Bool-cases, inl, inr, ◌⊎◌, ◌&&◌, ◌==◌,
}
use ferrite_mcp.Lexer.Token.{
  DqPart, TokenKind, word, single_quoted, double_quoted, gt, gt_gt, pipe, or_or, and_and, semi,
  ampersand, lt, gt_ampersand, fd_gt, fd_gt_gt, eof, newline, semi_semi, r_paren, r_brace,
}
use ferrite_mcp.Parser.Ast.{
  Separator, sequential, background, and_then, or_else, end_of_input, WordPart, literal, variable,
  glob, cmd_subst, Word, RedirectKind, output, append, input, output_dup, Redirect, SimpleCommand,
  Command, simple, Pipeline, ListItem, CommandList,
}
use ferrite_mcp.Parser.Parse.{
  Tokens, Outcome, ok, err, ◌>>=◌, peek, behind, word_part, word_of, parse_word, redirect_of,
  parse_redirect, Turn, stop, turn, finish_command, command_turn, command_loop, skip_newlines,
  parse_separator, pipe_loop, is_bang, parse_commands, parse_pipeline, list_next, list_item,
  list_loop, parse_tokens,
}
use ferrite_mcp.Parser.Print.{
  Style, Quoting, bare, single, double, quoted, named, spelled, bare_one, quote, word_token, arrow,
  words_tokens, redirects_tokens, command_tokens, piped_tokens, commands_tokens, pipeline_tokens,
  separator_tokens, items_tokens, PlainParts, PlainWords, FitsFd, PlainRedirects, NonEmpty,
  PlainCommand, PlainCommands, PlainPipeline, Printable, IsOpen,
}
use ferrite_mcp.Parser.Spelling.{
  parse_word-token, bare_one_either, turn-arrow, parse_redirect-tokens, turn-spelled,
}

module _ (σ : Style) where
  -- The loop takes the redirects, then stops at `t`.
  module _ (t : TokenKind) (ts : Tokens) (stops : turn t ≡ stop) where
    redirects_tokens-cons :
        (rs : List Redirect)
        → (u : TokenKind) × (us : Tokens) × (redirects_tokens σ rs (t ∷ ts) ≡ u ∷ us)
    redirects_tokens-cons [] = (t, ts, refl)
    redirects_tokens-cons (r ∷ rs) = (_, _, refl)

    command_loop-redirects :
        (f : ℕ) (ws : List Word) (before rs : List Redirect)
        → PlainRedirects rs
        → length (redirects_tokens σ rs (t ∷ ts)) < f
        → command_loop f ws before (redirects_tokens σ rs (t ∷ ts))
          ≡ finish_command ws (before ++ rs) (t ∷ ts)
    unfolding command_loop command_turn
    command_loop-redirects zero ws before rs p h = elim h [ ]
    command_loop-redirects (suc f) ws before [] p h = rw (stops, append-nil)
    command_loop-redirects (suc f) ws before (r ∷ rs) p h =
        let (u, us, e) = redirects_tokens-cons rs in
        rw (turn-arrow σ, e, parse_redirect-tokens σ r u us p.0 p.1, ← e)
          (command_loop-redirects f ws (before ++ r ∷ []) rs p.2 (omega arith) ∙ rw append_assoc)

    words_tokens-cons :
        (ws : List Word) (rs : List Redirect)
        → (u : TokenKind) × (us : Tokens) × (words_tokens σ ws (redirects_tokens σ rs (t ∷ ts))
            ≡ u ∷ us)
    words_tokens-cons [] rs = redirects_tokens-cons rs
    words_tokens-cons (w ∷ ws) rs = (_, _, refl)

    command_loop-words :
        (f : ℕ) (before ws : List Word) (rs : List Redirect)
        → PlainWords ws
        → PlainRedirects rs
        → length (words_tokens σ ws (redirects_tokens σ rs (t ∷ ts))) < f
        → command_loop f before [] (words_tokens σ ws (redirects_tokens σ rs (t ∷ ts)))
          ≡ finish_command (before ++ ws) rs (t ∷ ts)
    unfolding command_loop command_turn turn
    command_loop-words f before [] rs p q h =
        rw append-nil (command_loop-redirects f before [] rs q h)
    command_loop-words zero before (w ∷ ws) rs p q h = elim h [ ]
    command_loop-words (suc f) before (w ∷ ws) rs p q h =
        let (u, us, e) = words_tokens-cons ws rs in
        rw (turn-spelled σ w.parts, e, parse_word-token σ w u us p.0, ← e)
          (command_loop-words f (before ++ w ∷ []) ws rs p.1 q (omega arith) ∙ rw append_assoc)

    finish_command-NonEmpty :
        (ws : List Word) (rs : List Redirect)
        → NonEmpty ws rs
        → finish_command ws rs (t ∷ ts)
          ≡ ok (simple (record { words = ws; redirects = rs })) (t ∷ ts)
    unfolding finish_command
    finish_command-NonEmpty [] [] h = absurd h
    finish_command-NonEmpty [] (r ∷ rs) h = refl
    finish_command-NonEmpty (w ∷ ws) rs h = refl

    command_loop-tokens :
        (f : ℕ) (c : Command)
        → PlainCommand c
        → length (command_tokens σ c (t ∷ ts)) < f
        → command_loop f [] [] (command_tokens σ c (t ∷ ts)) ≡ ok c (t ∷ ts)
    command_loop-tokens f (simple c) p h =
        command_loop-words f [] c.words c.redirects p.1 p.2 h
        ∙ finish_command-NonEmpty c.words c.redirects p.0

  -- A command starts with a word between quotes or with a redirect.
  abbrev Starts : Tokens → Type 0
  Starts (word w ∷ ts) = text_eq w (codes "!") ≡ false
  Starts (single_quoted s ∷ ts) = Unit
  Starts (double_quoted ps ∷ ts) = Unit
  Starts (TokenKind.variable v ∷ ts) = Unit
  Starts (gt ∷ ts) = Unit
  Starts (gt_gt ∷ ts) = Unit
  Starts (fd_gt fd ∷ ts) = Unit
  Starts (fd_gt_gt fd ∷ ts) = Unit
  Starts (lt ∷ ts) = Unit
  Starts (gt_ampersand ∷ ts) = Unit
  Starts _ = ⊥

  Starts-arrow : (k : RedirectKind) (fd : ℕ) (ts : Tokens) → Starts (arrow σ k fd ∷ ts)
  Starts-arrow output fd ts =
      bare_one_either σ (λ t. Starts (t ∷ ts)) σ.bare_arrow fd gt (fd_gt fd) tt tt
  Starts-arrow append fd ts =
      bare_one_either σ (λ t. Starts (t ∷ ts)) σ.bare_arrow fd gt_gt (fd_gt_gt fd) tt tt
  Starts-arrow input fd ts = tt
  Starts-arrow output_dup fd ts = tt

  Starts-quoted : (q : Quoting) (s : Text) (ts : Tokens) → Starts (quoted q s ∷ ts)
  Starts-quoted bare s ts = elim (Bool-cases (text_eq s (codes "!"))) [
    | inl bang ↦ rw bang tt
    | inr other ↦ rw other other
  ]
  Starts-quoted single s ts = tt
  Starts-quoted double s ts = tt

  Starts-named : (b : Bool) (v : Text) (ts : Tokens) → Starts (named b v ∷ ts)
  Starts-named true v ts = tt
  Starts-named false v ts = tt

  Starts-spelled : (ps : List WordPart) (ts : Tokens) → Starts (spelled σ ps ∷ ts)
  Starts-spelled [] ts = tt
  Starts-spelled (literal s ∷ []) ts = Starts-quoted (σ.of_literal s) s ts
  Starts-spelled (variable v ∷ []) ts = Starts-named (σ.bare_variable v) v ts
  Starts-spelled (literal s ∷ p ∷ ps) ts = tt
  Starts-spelled (variable s ∷ p ∷ ps) ts = tt
  Starts-spelled (glob s ∷ ps) ts = tt
  Starts-spelled (cmd_subst ∷ ps) ts = tt

  Starts-words :
      (ws : List Word) (rs : List Redirect) (rest : Tokens)
      → NonEmpty ws rs
      → Starts (words_tokens σ ws (redirects_tokens σ rs rest))
  Starts-words [] [] rest h = absurd h
  Starts-words [] (r ∷ rs) rest h = Starts-arrow r.kind r.fd _
  Starts-words (w ∷ ws) rs rest h = Starts-spelled w.parts _

  Starts-command : (c : Command) (rest : Tokens) → PlainCommand c → Starts (command_tokens σ c rest)
  Starts-command (simple c) rest p = Starts-words c.words c.redirects rest p.0

  skip-Starts : (f : ℕ) (ts : Tokens) → Starts ts → skip_newlines (suc f) ts ≡ ok tt ts
  unfolding skip_newlines
  skip-Starts f [] h = absurd h
  skip-Starts f (newline ∷ ts) h = absurd h
  skip-Starts f (t ∷ ts) h = refl

  is_bang-Starts : (ts : Tokens) → Starts ts → is_bang (peek ts) ≡ false
  is_bang-Starts [] h = absurd h
  is_bang-Starts (word w ∷ ts) h = h
  is_bang-Starts (t ∷ ts) h = refl

  behind-Starts : (t : TokenKind) (ts : Tokens) → Starts ts → behind (t ∷ ts) ≡ ts
  behind-Starts t [] h = absurd h
  behind-Starts t (u ∷ ts) h = refl

  pipe_loop-stop :
      (t : TokenKind) (ts : Tokens) (f : ℕ) (cs : List Command)
      → t ≢ pipe
      → pipe_loop (suc f) cs (t ∷ ts) ≡ ok cs (t ∷ ts)
  unfolding pipe_loop
  pipe_loop-stop pipe ts f cs h = absurd (h refl)
  pipe_loop-stop _ ts f cs h = refl

  length-redirects :
      (rs : List Redirect) (rest : Tokens) → length rest ≤ length (redirects_tokens σ rs rest)
  length-redirects [] rest = omega arith
  length-redirects (r ∷ rs) rest = omega (arith, length-redirects rs rest)

  length-words : (ws : List Word) (rest : Tokens) → length rest ≤ length (words_tokens σ ws rest)
  length-words [] rest = omega arith
  length-words (w ∷ ws) rest = omega (arith, length-words ws rest)

  length-command : (c : Command) (rest : Tokens) → length rest ≤ length (command_tokens σ c rest)
  length-command (simple c) rest = omega (
    arith,
    length-words c.words (redirects_tokens σ c.redirects rest),
    length-redirects c.redirects rest,
  )

  length-piped : (cs : List Command) (rest : Tokens) → length rest ≤ length (piped_tokens σ cs rest)
  length-piped [] rest = omega arith
  length-piped (c ∷ cs) rest =
      omega (arith, length-command c (piped_tokens σ cs rest), length-piped cs rest)

  -- The pipeline ends at `t`, which ends a command and is no pipe.
  module _ (t : TokenKind) (ts : Tokens) (stops : turn t ≡ stop) (no_pipe : t ≢ pipe) where
    piped_tokens-stops :
        (cs : List Command)
        → (u : TokenKind) × (us : Tokens) × (piped_tokens σ cs (t ∷ ts) ≡ u ∷ us) × (turn u ≡ stop)
    piped_tokens-stops [] = (t, ts, refl, stops)
    piped_tokens-stops (c ∷ cs) = (pipe, _, refl, unfold turn in refl)

    pipe_loop-tokens :
        (f : ℕ) (before cs : List Command)
        → PlainCommands cs
        → length (piped_tokens σ cs (t ∷ ts)) < f
        → pipe_loop f before (piped_tokens σ cs (t ∷ ts)) ≡ ok (before ++ cs) (t ∷ ts)
    unfolding pipe_loop
    pipe_loop-tokens zero before cs p h = elim h [ ]
    pipe_loop-tokens (suc f) before [] p h = rw append-nil (pipe_loop-stop t ts f before no_pipe)
    pipe_loop-tokens (suc f) before (c ∷ cs) p h =
        let (u, us, e, s) = piped_tokens-stops cs in
        let begins = Starts-command c (piped_tokens σ cs (t ∷ ts)) p.0 in
        let rest = piped_tokens σ cs (t ∷ ts) in
        let fits = subst (λ (x : Tokens). length (command_tokens σ c x) < suc f) e (omega arith) in
        rw
          (
            behind-Starts pipe _ begins,
            skip-Starts f _ begins,
            e,
            command_loop-tokens u us s (suc f) c p.0 fits,
            ← e,
          )
          (pipe_loop-tokens f (before ++ c ∷ []) cs p.1 (omega (arith, length-command c rest))
            ∙ rw append_assoc)

    parse_commands-tokens :
        (f : ℕ) (c : Command) (cs : List Command)
        → PlainCommand c
        → PlainCommands cs
        → length (commands_tokens σ (c ∷ cs) (t ∷ ts)) < f
        → parse_commands f (commands_tokens σ (c ∷ cs) (t ∷ ts)) ≡ ok (c ∷ cs) (t ∷ ts)
    unfolding parse_commands
    parse_commands-tokens f c cs p q h =
        let (u, us, e, s) = piped_tokens-stops cs in
        let rest = piped_tokens σ cs (t ∷ ts) in
        let fits = subst (λ (x : Tokens). length (command_tokens σ c x) < f) e (omega arith) in
        rw (e, command_loop-tokens u us s f c p fits, ← e)
          (pipe_loop-tokens f (c ∷ []) cs q (omega (arith, length-command c rest)))

    parse_pipeline-tokens :
        (f : ℕ) (b : Bool) (cs : List Command)
        → PlainPipeline cs
        → length (pipeline_tokens σ b cs (t ∷ ts)) < f
        → parse_pipeline f (pipeline_tokens σ b cs (t ∷ ts))
          ≡ ok (record { negate = b; commands = cs }) (t ∷ ts)
    unfolding parse_pipeline
    parse_pipeline-tokens f b [] p h = absurd p
    parse_pipeline-tokens f true (c ∷ cs) p h =
        let begins = Starts-command c (piped_tokens σ cs (t ∷ ts)) p.0 in
        rw (
          text_eq_refl (codes "!"),
          behind-Starts (word (codes "!")) _ begins,
          parse_commands-tokens f c cs p.0 p.1 (omega arith),
        )
    parse_pipeline-tokens f false (c ∷ cs) p h =
        let begins = Starts-command c (piped_tokens σ cs (t ∷ ts)) p.0 in
        rw (is_bang-Starts _ begins, parse_commands-tokens f c cs p.0 p.1 h)

  skip-pipeline :
      (f : ℕ) (b : Bool) (cs : List Command) (rest : Tokens)
      → PlainPipeline cs
      → skip_newlines (suc f) (pipeline_tokens σ b cs rest) ≡ ok tt (pipeline_tokens σ b cs rest)
  skip-pipeline f b [] rest p = absurd p
  skip-pipeline f true (c ∷ cs) rest p = unfold skip_newlines in refl
  skip-pipeline f false (c ∷ cs) rest p =
      skip-Starts f _ (Starts-command c (piped_tokens σ cs rest) p.0)

  loop-Starts :
      (f : ℕ) (items : List ListItem) (ts : Tokens)
      → Starts ts
      → list_loop (suc f) items ts ≡ list_item (suc f) (list_loop f) items ts
  unfolding list_loop
  loop-Starts f items [] h = absurd h
  loop-Starts f items (eof ∷ ts) h = absurd h
  loop-Starts f items (t ∷ ts) h = refl

  loop-pipeline :
      (f : ℕ) (items : List ListItem) (b : Bool) (cs : List Command) (rest : Tokens)
      → PlainPipeline cs
      → list_loop (suc f) items (pipeline_tokens σ b cs rest)
        ≡ list_item (suc f) (list_loop f) items (pipeline_tokens σ b cs rest)
  loop-pipeline f items b [] rest p = absurd p
  loop-pipeline f items true (c ∷ cs) rest p = unfold list_loop in refl
  loop-pipeline f items false (c ∷ cs) rest p =
      loop-Starts f items _ (Starts-command c (piped_tokens σ cs rest) p.0)

  -- Of a separator with a token behind it: what it starts with, and that it is read back.
  record Separates (s : Separator) (v : TokenKind) (vs : Tokens) : Type 0 where
    first : TokenKind
    others : Tokens
    shape : separator_tokens s (v ∷ vs) ≡ first ∷ others
    stops : turn first ≡ stop
    no_pipe : first ≢ pipe
    reads : parse_separator (first ∷ others) ≡ (s, v ∷ vs)

  separator-Separates :
      (s : Separator) (v : TokenKind) (vs : Tokens) → s ≢ end_of_input → Separates s v vs
  unfolding turn parse_separator
  separator-Separates sequential v vs h = record {
    first = semi;
    others = v ∷ vs;
    shape = refl;
    stops = refl;
    no_pipe = λ e. cc;
    reads = refl;
  }
  separator-Separates background v vs h = record {
    first = ampersand;
    others = v ∷ vs;
    shape = refl;
    stops = refl;
    no_pipe = λ e. cc;
    reads = refl;
  }
  separator-Separates and_then v vs h = record {
    first = and_and;
    others = v ∷ vs;
    shape = refl;
    stops = refl;
    no_pipe = λ e. cc;
    reads = refl;
  }
  separator-Separates or_else v vs h = record {
    first = or_or;
    others = v ∷ vs;
    shape = refl;
    stops = refl;
    no_pipe = λ e. cc;
    reads = refl;
  }
  separator-Separates end_of_input v vs h = absurd (h refl)

  -- An item is read with its separator.
  list_item-tokens :
      (f : ℕ) (again : List ListItem → Tokens → Outcome CommandList) (before : List ListItem)
      (i : ListItem) (v : TokenKind) (vs : Tokens)
      → PlainPipeline i.pipeline.commands
      → Separates i.separator v vs
      → length (
          pipeline_tokens σ i.pipeline.negate i.pipeline.commands
            (separator_tokens i.separator (v ∷ vs)))
        < f
      → list_item f again before (
          pipeline_tokens σ i.pipeline.negate i.pipeline.commands
            (separator_tokens i.separator (v ∷ vs)))
        ≡ list_next f again (before ++ i ∷ []) i.separator (v ∷ vs)
  unfolding list_item
  list_item-tokens f again before i v vs p d h =
      let tokens = λ (x : Tokens). pipeline_tokens σ i.pipeline.negate i.pipeline.commands x in
      let fits = subst (λ (x : Tokens). length (tokens x) < f) d.shape h in
      rw (
        d.shape,
        parse_pipeline-tokens d.first d.others d.stops d.no_pipe f i.pipeline.negate
            i.pipeline.commands p fits,
        d.reads,
      )

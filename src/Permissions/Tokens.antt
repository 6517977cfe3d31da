-- ===== src/Permissions/Tokens.antt =====
-- Words that are joined and split again.
use ferrite_mcp.Prelude.{
  ℕ, ◌≡◌, refl, ap, ◌∙◌, Bool, true, false, not, ◌&&◌, List, [], ◌∷◌, ◌++◌, arith, Text, codes,
  Bool-cases, inl, inr,
}
use ferrite_mcp.Edit.Lines.{join_first}
use ferrite_mcp.Permissions.Words.{is_empty, join, tokenize, begins_word}

module _ (is_whitespace : ℕ → Bool) where
  -- no whitespace in it
  abbrev pub solid : Text → Bool
  solid [] = true
  solid (c ∷ s) = not (is_whitespace c) && solid s

  abbrev pub is_word : Text → Bool
  is_word w = not (is_empty w) && solid w

  abbrev pub all_words : List Text → Bool
  all_words [] = true
  all_words (w ∷ ws) = is_word w && all_words ws

  pub tokenize_step :
      (c d : ℕ) (s : Text)
      → is_whitespace c ≡ false
      → is_whitespace d ≡ false
      → tokenize is_whitespace (c ∷ d ∷ s) ≡ join_first c (tokenize is_whitespace (d ∷ s))
  unfolding tokenize begins_word
  tokenize_step c d s hc hd = rw (hc, hd) refl

  pub tokenize-word :
      (w s : Text)
      → solid w ≡ true
      → (c : ℕ) → is_whitespace c ≡ false
      → is_whitespace b' ' ≡ true
      → tokenize is_whitespace ((c ∷ w) ++ b' ' ∷ s) ≡ (c ∷ w) ∷ tokenize is_whitespace s
  unfolding tokenize begins_word join_first
  tokenize-word [] s h c hc space = rw (hc, space) refl
  tokenize-word (d ∷ w) s h c hc space =
      tokenize_step c d (w ++ b' ' ∷ s) hc (ground arith)
      ∙ ap (join_first c) (tokenize-word w s (ground arith) d (ground arith) space)

  pub tokenize-last :
      (w : Text)
      → solid w ≡ true
      → (c : ℕ) → is_whitespace c ≡ false
      → tokenize is_whitespace (c ∷ w) ≡ (c ∷ w) ∷ []
  unfolding tokenize begins_word join_first
  tokenize-last [] h c hc = rw hc refl
  tokenize-last (d ∷ w) h c hc =
      tokenize_step c d w hc (ground arith)
      ∙ ap (join_first c) (tokenize-last w (ground arith) d (ground arith))

  pub tokenize-join :
      (ws : List Text)
      → all_words ws ≡ true
      → is_whitespace b' ' ≡ true
      → tokenize is_whitespace (join ws) ≡ ws
  unfolding join tokenize
  tokenize-join [] h space = refl
  tokenize-join ([] ∷ ws) h space = absurd (ground arith)
  tokenize-join ((c ∷ w) ∷ []) h space = tokenize-last w (ground arith) c (ground arith)
  tokenize-join ((c ∷ w) ∷ v ∷ ws) h space =
      tokenize-word w (join (v ∷ ws)) (ground arith) c (ground arith) space
      ∙ ap (◌∷◌ (c ∷ w)) (tokenize-join (v ∷ ws) (ground arith) space)

  pub join_first_words :
      (c : ℕ) (ws : List Text)
      → is_whitespace c ≡ false
      → all_words ws ≡ true
      → all_words (join_first c ws) ≡ true
  unfolding join_first
  join_first_words c [] hc h = ground arith
  join_first_words c (w ∷ ws) hc h = ground arith

  pub tokenize_words : (s : Text) → all_words (tokenize is_whitespace s) ≡ true
  unfolding tokenize
  tokenize_words [] = refl
  tokenize_words (c ∷ s) = elim (Bool-cases (is_whitespace c)) [
    | inl blank ↦ rw blank (tokenize_words s)
    | inr ink ↦ elim (Bool-cases (begins_word is_whitespace s)) [
      | inl more ↦
          rw (ink, more) (join_first_words c (tokenize is_whitespace s) ink (tokenize_words s))
      | inr ends ↦ rw (ink, ends, ink) (tokenize_words s)
    ]
  ]

  -- the words that the rules put in
  abbrev pub flags : List Text
  flags =
      codes "-q"
      ∷ codes "-y"
      ∷ codes "--no-input"
      ∷ codes "--force"
      ∷ codes "--force-confdef"
      ∷ codes "--force-confold"
      ∷ []

-- ===== src/Lexer/Consumes.antt =====
-- What a scanner does to the cursor: it passes over a prefix of the text before it, and the position
-- moves by the length of that prefix in bytes.
use ferrite_mcp.Prelude.{
  ℕ, ◌+◌, ◌-◌, ◌≤◌, ◌≡◌, refl, sym, ap, ◌∙◌, Bool, true, false, [], ◌∷◌, ◌++◌, append_assoc, arith,
  ◌==◌, if◌then◌else◌, Text, len_utf8, byte_len, byte_len-append, length, length-append,
}
use ferrite_mcp.Lexer.Cursor.{
  Cursor, at, advance, skip_blanks, skip_comment, ends_word, Slice, onto, scan_word, scan_until,
  scan_until_close_paren, in_varname, scan_varname,
}

pub record Consumed (k k' : Cursor) : Type 0 where
  pub passed : Text
  pub splits : k.rest ≡ passed ++ k'.rest
  pub moves : k'.pos ≡ k.pos + byte_len passed

pub Consumed-refl : (k : Cursor) → Consumed k k
Consumed-refl k = record { passed = []; splits = refl; moves = omega arith }

pub Consumed-trans : {k1 k2 k3 : Cursor} → Consumed k1 k2 → Consumed k2 k3 → Consumed k1 k3
Consumed-trans {k1} {k2} {k3} a b = record {
  passed = a.passed ++ b.passed;
  splits =
      a.splits
      ∙ ap (λ (t : Text). a.passed ++ t) b.splits
      ∙ sym (append_assoc a.passed b.passed k3.rest);
  moves = omega (arith, a.moves, b.moves, byte_len-append a.passed b.passed);
}

pub Consumed-step : (c : ℕ) (cs : Text) (p : ℕ) → Consumed (at (c ∷ cs) p) (at cs (p + len_utf8 c))
Consumed-step c cs p = record { passed = c ∷ []; splits = refl; moves = omega arith }

-- The text left gets no longer.
pub Consumed-length : {k k' : Cursor} → Consumed k k' → length k'.rest ≤ length k.rest
Consumed-length {k} {k'} a = omega (arith, ap (length {0}) a.splits, length-append a.passed k'.rest)

pub Consumed-pos : {k k' : Cursor} → Consumed k k' → k.pos ≤ k'.pos
Consumed-pos a = omega (arith, a.moves)

pub Consumed-cons :
    (c : ℕ) (cs : Text) (p : ℕ) {k : Cursor}
    → Consumed (at cs (p + len_utf8 c)) k
    → Consumed (at (c ∷ cs) p) k
Consumed-cons c cs p a = Consumed-trans (Consumed-step c cs p) a

pub Consumed-if :
    {k : Cursor} (b : Bool) {x y : Cursor}
    → Consumed k x
    → Consumed k y
    → Consumed k (if b then x else y)
Consumed-if true a b = a
Consumed-if false a b = b

pub Consumed-advance : (k : Cursor) → Consumed k (advance k)
Consumed-advance k = go k.rest k.pos
  where
    go : (s : Text) (p : ℕ) → Consumed (at s p) (advance (at s p))
    go [] p = Consumed-refl (at [] p)
    go (c ∷ cs) p = Consumed-step c cs p

pub skip_blanks-Consumed : (s : Text) (p : ℕ) → Consumed (at s p) (skip_blanks s p)
unfolding skip_blanks
skip_blanks-Consumed [] p = Consumed-refl _
skip_blanks-Consumed (c ∷ cs) p =
    Consumed-if _ (Consumed-cons c cs p (skip_blanks-Consumed cs (p + len_utf8 c)))
      (Consumed-refl _)

pub skip_comment-Consumed : (s : Text) (p : ℕ) → Consumed (at s p) (skip_comment s p)
unfolding skip_comment
skip_comment-Consumed [] p = Consumed-refl _
skip_comment-Consumed (c ∷ cs) p =
    Consumed-if _ (Consumed-refl _)
      (Consumed-cons c cs p (skip_comment-Consumed cs (p + len_utf8 c)))

-- The slice is the whole text passed over.
pub record Takes (k : Cursor) (s : Slice) : Type 0 where
  pub splits : k.rest ≡ s.0 ++ s.1.rest
  pub moves : s.1.pos ≡ k.pos + byte_len s.0

pub Takes-Consumed : {k : Cursor} {s : Slice} → Takes k s → Consumed k s.1
Takes-Consumed {k} {s} t = record { passed = s.0; splits = t.splits; moves = t.moves }

pub Takes-nil : (k : Cursor) → Takes k ([], k)
Takes-nil k = record { splits = refl; moves = omega arith }

pub Takes-cons :
    (c : ℕ) (cs : Text) (p : ℕ) {s : Slice}
    → Takes (at cs (p + len_utf8 c)) s
    → Takes (at (c ∷ cs) p) (onto c s)
Takes-cons c cs p t = record { splits = ap (◌∷◌ c) t.splits; moves = omega (arith, t.moves) }

pub Takes-if :
    {k : Cursor} (b : Bool) {x y : Slice} → Takes k x → Takes k y → Takes k (if b then x else y)
Takes-if true a b = a
Takes-if false a b = b

pub scan_word-Takes : (s : Text) (p : ℕ) → Takes (at s p) (scan_word s p)
unfolding scan_word
scan_word-Takes [] p = Takes-nil _
scan_word-Takes (c ∷ []) p = Takes-if (ends_word c) (Takes-nil _) (Takes-cons c [] p (Takes-nil _))
scan_word-Takes (c ∷ d ∷ ds) p =
    let q = p + len_utf8 c in
    Takes-if (ends_word c) (Takes-nil _) (
      Takes-if (c == b'\\')
        (Takes-cons c (d ∷ ds) p (Takes-cons d ds q (scan_word-Takes ds (q + len_utf8 d))))
        (Takes-cons c (d ∷ ds) p (scan_word-Takes (d ∷ ds) q)))

pub scan_until-Takes : (stop : ℕ) (s : Text) (p : ℕ) → Takes (at s p) (scan_until stop s p)
unfolding scan_until
scan_until-Takes stop [] p = Takes-nil _
scan_until-Takes stop (c ∷ cs) p =
    Takes-if _ (Takes-nil _) (Takes-cons c cs p (scan_until-Takes stop cs (p + len_utf8 c)))

pub scan_varname-Takes :
    (alphanumeric : ℕ → Bool) (s : Text) (p : ℕ) → Takes (at s p) (scan_varname alphanumeric s p)
unfolding scan_varname
scan_varname-Takes an [] p = Takes-nil _
scan_varname-Takes an (c ∷ cs) p =
    Takes-if (in_varname an c) (Takes-cons c cs p (scan_varname-Takes an cs (p + len_utf8 c)))
      (Takes-nil _)

snd_if :
    (k : Cursor) (b : Bool) (x y : Slice)
    → Consumed k x.1
    → Consumed k y.1
    → Consumed k (if b then x else y).1
snd_if k true x y a b = a
snd_if k false x y a b = b

pub scan_until_close_paren-Consumed :
    (depth : ℕ) (s : Text) (p : ℕ) → Consumed (at s p) (scan_until_close_paren depth s p).1
unfolding scan_until_close_paren
scan_until_close_paren-Consumed depth [] p = Consumed-refl _
scan_until_close_paren-Consumed depth (c ∷ cs) p =
    let q = p + len_utf8 c in
    snd_if _ (c == b'(') _ _
      (Consumed-cons c cs p (scan_until_close_paren-Consumed (depth + 1) cs q))
      (snd_if _ (c == b')') _ _
        (snd_if _ (depth - 1 == 0) _ _ (Consumed-step c cs p)
          (Consumed-cons c cs p (scan_until_close_paren-Consumed (depth - 1) cs q)))
        (Consumed-cons c cs p (scan_until_close_paren-Consumed depth cs q)))

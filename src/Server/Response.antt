-- ===== src/Server/Response.antt =====
-- The size cap of `cap_and_filter` on the text of one content item. The keyword filter in front of it, which
-- is `str::to_lowercase` and `contains` on lines, is not modelled: the cap gets its outcome.
use ferrite_mcp.Prelude.{
  ℕ, zero, suc, ◌+◌, ◌-◌, ◌/◌, ◌%◌, ◌<◌, ◌≤◌, ◌≡◌, refl, ap, sym, ◌∙◌, false, ◌&&◌, Option, none,
  some, [], ◌∷◌, ◌++◌, length, take, drop, ltb, if◌then◌else◌, arith, lt→ltb, take-append-drop,
  Text, codes, len_utf8, len_utf8_bounds, byte_len, byte_len-append,
}

-- `char_indices().map(|(i, _)| i).nth(n)`: where the `n`-th char starts
unfoldable pub nth_offset : ℕ → Text → Option ℕ
nth_offset n [] = none
nth_offset zero (c ∷ cs) = some 0
nth_offset (suc n) (c ∷ cs) = elim (nth_offset n cs) [
  | none ↦ none
  | some i ↦ some (len_utf8 c + i)
]

-- `String::truncate`, which panics (`none`) inside a char
unfoldable pub truncate : ℕ → Text → Option Text
truncate n [] = some []
truncate zero (c ∷ cs) = some []
truncate (suc n) (c ∷ cs) =
    let rest = truncate (suc n - len_utf8 c) cs in
    if ltb (suc n) (len_utf8 c) then none else elim rest [ none ↦ none | some t ↦ some (c ∷ t) ]

-- a number in decimal, on fuel above it
unfoldable pub digits : ℕ → ℕ → Text
digits zero n = []
digits (suc fuel) n =
    let rest = digits fuel (n / 10) in
    if ltb n 10 then (b'0' + n) ∷ [] else rest ++ (b'0' + n % 10) ∷ []

unfoldable pub truncation_note : ℕ → Text
unfolding digits
truncation_note omitted =
    codes "\n[truncated: " ++ digits (suc omitted) omitted ++ codes "b omitted]"

unfoldable pub unwrap_or : Option ℕ → ℕ → ℕ
unwrap_or none d = d
unwrap_or (some n) d = n

unfoldable pub cap_text : ℕ → Text → Option Text
unfolding nth_offset truncate truncation_note unwrap_or
cap_text max_chars text =
    if ltb 0 max_chars && ltb max_chars (byte_len text)
    then (let cut = unwrap_or (nth_offset max_chars text) max_chars in
        elim (truncate cut text) [
          | none ↦ none
          | some kept ↦ some (kept ++ truncation_note (byte_len text - cut))
        ])
    else some text

nth_offset_lem : (n : ℕ) (t : Text) → n < length t → nth_offset n t ≡ some (byte_len (take n t))
unfolding nth_offset
nth_offset_lem n [] h = absurd (omega arith)
nth_offset_lem zero (c ∷ t) h = refl
nth_offset_lem (suc n) (c ∷ t) h = rw (nth_offset_lem n t (omega arith)) refl

ltb-false : (a b : ℕ) → b ≤ a → ltb a b ≡ false
ltb-false a b h = ground arith

keep_char : ℕ → Option Text → Option Text
keep_char c none = none
keep_char c (some t) = some (c ∷ t)

truncate-suc :
    (n m c : ℕ) (t : Text)
    → suc n ≡ len_utf8 c + m
    → truncate (suc n) (c ∷ t) ≡ keep_char c (truncate m t)
unfolding truncate keep_char
truncate-suc n m c t e =
    rw (ltb-false (suc n) (len_utf8 c) (omega arith))
      (rw (rest_lem (suc n) (len_utf8 c) m e) (joined (truncate m t)))
  where
    rest_lem : (a b d : ℕ) → a ≡ b + d → a - b ≡ d
    rest_lem a b d h = omega arith

    joined :
        (o : Option Text)
        → (elim o as (λ _. Option Text) [ none ↦ none | some u ↦ some (c ∷ u) ])
          ≡ (elim o as (λ _. Option Text) [ none ↦ none | some u ↦ some (c ∷ u) ])
    joined o = refl

truncate_step :
    (c m n : ℕ) (t : Text) → n ≡ len_utf8 c + m → truncate n (c ∷ t) ≡ keep_char c (truncate m t)
truncate_step c m zero t e = absurd (omega (arith, (len_utf8_bounds c).0))
truncate_step c m (suc n) t e = truncate-suc n m c t e

truncate_lem : (n : ℕ) (t : Text) → truncate (byte_len (take n t)) t ≡ some (take n t)
unfolding truncate keep_char
truncate_lem zero [] = refl
truncate_lem zero (c ∷ t) = refl
truncate_lem (suc n) [] = refl
truncate_lem (suc n) (c ∷ t) =
    truncate_step c (byte_len (take n t)) _ t refl ∙ ap (keep_char c) (truncate_lem n t)

length-byte_len : (t : Text) → length t ≤ byte_len t
length-byte_len [] = omega arith
length-byte_len (c ∷ t) = omega (arith, length-byte_len t, (len_utf8_bounds c).0)

byte_len-take-drop : (n : ℕ) (t : Text) → byte_len (take n t) + byte_len (drop n t) ≡ byte_len t
byte_len-take-drop n t =
    sym (byte_len-append (take n t) (drop n t)) ∙ ap byte_len (take-append-drop n t)

-- A text of more chars than the cap keeps exactly that many, followed by a note of the number of bytes left
-- out, which the cap does not count.
pub cap_text-keeps :
    (max_chars : ℕ) (text : Text)
    → 0 < max_chars
    → max_chars < length text
    → cap_text max_chars text
      ≡ some (take max_chars text ++ truncation_note (byte_len (drop max_chars text)))
unfolding cap_text unwrap_or
cap_text-keeps n t pos more = rw (lt→ltb 0 n pos) (
    rw (lt→ltb n (byte_len t) (omega (arith, length-byte_len t))) (
      rw (nth_offset_lem n t more)
        (rw (truncate_lem n t) (ap (λ k. some (take n t ++ truncation_note k)) left_out))))
  where
    omitted : byte_len t - byte_len (take n t) ≡ byte_len (drop n t)
    omitted = omega (arith, byte_len-take-drop n t)

    left_out : byte_len t - unwrap_or (nth_offset n t) n ≡ byte_len (drop n t)
    left_out = ap (λ o. byte_len t - unwrap_or o n) (nth_offset_lem n t more) ∙ omitted

-- `truncate` at a byte that is not where a char starts
truncate-inside :
    (p : Text) (c : ℕ) (n : ℕ) (t : Text)
    → byte_len p < n
    → n < byte_len p + len_utf8 c
    → truncate n (p ++ c ∷ t) ≡ none
unfolding truncate keep_char
truncate-inside [] c zero t low high = absurd (omega arith)
truncate-inside [] c (suc n) t low high = rw (lt→ltb (suc n) (len_utf8 c) (omega arith)) refl
truncate-inside (d ∷ p) c n t low high =
    truncate_step d (n - len_utf8 d) n (p ++ c ∷ t) (omega arith)
    ∙ ap (keep_char d) (truncate-inside p c (n - len_utf8 d) t (omega arith) (omega arith))

nth_offset-none : (n : ℕ) (t : Text) → length t ≤ n → nth_offset n t ≡ none
unfolding nth_offset
nth_offset-none n [] h = refl
nth_offset-none zero (c ∷ t) h = absurd (omega arith)
nth_offset-none (suc n) (c ∷ t) h = rw (nth_offset-none n t (omega arith)) refl

-- A text of no more chars than the cap panics where the byte at the cap is inside a char.
pub cap_text-panics :
    (max_chars : ℕ) (p : Text) (c : ℕ) (rest : Text)
    → length (p ++ c ∷ rest) ≤ max_chars
    → byte_len p < max_chars
    → max_chars < byte_len p + len_utf8 c
    → cap_text max_chars (p ++ c ∷ rest) ≡ none
unfolding cap_text unwrap_or
cap_text-panics n p c rest few low high = rw (lt→ltb 0 n (omega arith)) (
    rw (lt→ltb n (byte_len (p ++ c ∷ rest)) longer)
      (rw (nth_offset-none n (p ++ c ∷ rest) few) (rw (truncate-inside p c n rest low high) refl)))
  where
    longer : n < byte_len (p ++ c ∷ rest)
    longer = omega (arith, byte_len-append p (c ∷ rest))

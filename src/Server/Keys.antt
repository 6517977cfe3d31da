-- ===== src/Server/Keys.antt =====
-- Resource keys: the order of Rust strings, `sort` and `dedup`, and `sorted_resource_keys`.
use ferrite_mcp.Prelude.{
  sym, ◌≡◌, ◌≢◌, inl, inr, refl, Bool, true, false, ◌&&◌, ◌||◌, List, [], ◌∷◌, arith, ltb, ◌==◌,
  if◌then◌else◌, Bool-cases, Text, text_eq, text_eq_iff, elem, ◌∙◌,
}

-- Strings are ordered byte by byte, which for UTF-8 is by code points.
unfoldable pub text_ltb : Text → Text → Bool
text_ltb [] [] = false
text_ltb [] (y ∷ ys) = true
text_ltb (x ∷ xs) [] = false
text_ltb (x ∷ xs) (y ∷ ys) = ltb x y || x == y && text_ltb xs ys

unfoldable pub insert_key : Text → List Text → List Text
insert_key k [] = k ∷ []
insert_key k (j ∷ js) = let rest = insert_key k js in if text_ltb j k then j ∷ rest else k ∷ j ∷ js

-- `keys.sort()`
unfoldable pub sort : List Text → List Text
sort [] = []
sort (k ∷ ks) = insert_key k (sort ks)

-- `keys.dedup()`: of equal neighbours the first stays
unfoldable pub dedup : List Text → List Text
dedup [] = []
dedup (k ∷ []) = k ∷ []
dedup (k ∷ j ∷ ks) = let rest = dedup (j ∷ ks) in if text_eq k j then rest else k ∷ rest

unfoldable pub sorted_resource_keys : List Text → List Text
unfolding sort dedup
sorted_resource_keys keys = dedup (sort keys)

pub text_ltb_irrefl : (s : Text) → text_ltb s s ≡ false
unfolding text_ltb
text_ltb_irrefl [] = refl
text_ltb_irrefl (x ∷ s) = ground (arith, text_ltb_irrefl s)

pub text_ltb_trans :
    (s t u : Text) → text_ltb s t ≡ true → text_ltb t u ≡ true → text_ltb s u ≡ true
unfolding text_ltb
text_ltb_trans (x ∷ s) (y ∷ t) (z ∷ u) h k = ground (arith, text_ltb_trans s t u)
text_ltb_trans _ _ _ h k = ground arith

pub text_ltb_total : (s t : Text) → text_ltb s t ≡ false → text_ltb t s ≡ false → s ≡ t
unfolding text_ltb
text_ltb_total (x ∷ s) (y ∷ t) h k = ground (arith, text_ltb_total s t)
text_ltb_total _ _ h k = ground arith

-- `k` is below each of the keys; no key is below `k`
abbrev pub BelowAll : Text → List Text → Type 0
BelowAll k [] = Unit
BelowAll k (j ∷ js) = (text_ltb k j ≡ true) × BelowAll k js

abbrev LeAll : Text → List Text → Type 0
LeAll k [] = Unit
LeAll k (j ∷ js) = (text_ltb j k ≡ false) × LeAll k js

abbrev pub Increasing : List Text → Type 0
Increasing [] = Unit
Increasing (k ∷ ks) = BelowAll k ks × Increasing ks

abbrev Sorted : List Text → Type 0
Sorted [] = Unit
Sorted (k ∷ ks) = LeAll k ks × Sorted ks

-- `a ≤ b ≤ c` and `a ≤ b < c`
le_trans : (a b c : Text) → text_ltb b a ≡ false → text_ltb c b ≡ false → text_ltb c a ≡ false
le_trans a b c h k = elim (Bool-cases (text_ltb c a)) [
  | inr no_lt ↦ no_lt
  | inl below ↦ elim (Bool-cases (text_ltb a b)) [
    | inl a_b ↦ absurd (contradiction (text_ltb_trans c a b below a_b) k)
    | inr a_b ↦ rw (text_ltb_total a b a_b h) k
  ]
]
  where
    contradiction : {x : Bool} → x ≡ true → x ≡ false → ⊥
    contradiction p q = cc

LeAll-trans : (a b : Text) (ks : List Text) → text_ltb b a ≡ false → LeAll b ks → LeAll a ks
LeAll-trans a b [] h l = tt
LeAll-trans a b (k ∷ ks) h l = (le_trans a b k h l.0, LeAll-trans a b ks h l.1)

insert_key-LeAll :
    (k j : Text) (ks : List Text) → text_ltb j k ≡ false → LeAll k ks → LeAll k (insert_key j ks)
unfolding insert_key
insert_key-LeAll k j [] h l = (h, tt)
insert_key-LeAll k j (i ∷ ks) h l = elim (Bool-cases (text_ltb i j)) [
  | inl below ↦ rw below (l.0, insert_key-LeAll k j ks h l.1)
  | inr above ↦ rw above (h, l)
]

below_le : (a b : Text) → text_ltb a b ≡ true → text_ltb b a ≡ false
below_le a b h = elim (Bool-cases (text_ltb b a)) [
  | inr no_lt ↦ no_lt
  | inl below ↦ absurd (contradiction (text_ltb_trans a b a h below) (text_ltb_irrefl a))
]
  where
    contradiction : {x : Bool} → x ≡ true → x ≡ false → ⊥
    contradiction p q = cc

insert_key-Sorted : (k : Text) (ks : List Text) → Sorted ks → Sorted (insert_key k ks)
unfolding insert_key
insert_key-Sorted k [] s = (tt, tt)
insert_key-Sorted k (j ∷ ks) s = elim (Bool-cases (text_ltb j k)) [
  | inl below ↦
      rw below (insert_key-LeAll j k ks (below_le j k below) s.0, insert_key-Sorted k ks s.1)
  | inr above ↦ rw above ((above, LeAll-trans k j ks above s.0), s)
]

sort-Sorted : (ks : List Text) → Sorted (sort ks)
unfolding sort
sort-Sorted [] = tt
sort-Sorted (k ∷ ks) = insert_key-Sorted k (sort ks) (sort-Sorted ks)

-- `a < b ≤ c`
lt_le_trans : (a b c : Text) → text_ltb a b ≡ true → text_ltb c b ≡ false → text_ltb a c ≡ true
lt_le_trans a b c h k = elim (Bool-cases (text_ltb b c)) [
  | inl below ↦ text_ltb_trans a b c h below
  | inr above ↦ rw (sym (text_ltb_total b c above k)) h
]

dedup-BelowAll : (k : Text) (ks : List Text) → BelowAll k ks → BelowAll k (dedup ks)
unfolding dedup
dedup-BelowAll k [] b = tt
dedup-BelowAll k (j ∷ []) b = b
dedup-BelowAll k (j ∷ i ∷ ks) b = elim (Bool-cases (text_eq j i)) [
  | inl same ↦ rw same (dedup-BelowAll k (i ∷ ks) b.1)
  | inr other ↦ rw other (b.0, dedup-BelowAll k (i ∷ ks) b.1)
]

LeAll-BelowAll : (k j : Text) (ks : List Text) → text_ltb k j ≡ true → LeAll j ks → BelowAll k ks
LeAll-BelowAll k j [] h l = tt
LeAll-BelowAll k j (i ∷ ks) h l = (lt_le_trans k j i h l.0, LeAll-BelowAll k j ks h l.1)

text_eq-false : (s t : Text) → text_eq s t ≡ false → s ≢ t
text_eq-false s t h e = cc (h, (text_eq_iff s t).1 e)

-- an unequal neighbour of a sorted list is above
neighbour_below : (k j : Text) → text_ltb j k ≡ false → text_eq k j ≡ false → text_ltb k j ≡ true
neighbour_below k j h e = elim (Bool-cases (text_ltb k j)) [
  | inl below ↦ below
  | inr above ↦ absurd (text_eq-false k j e (text_ltb_total k j above h))
]

dedup-Increasing : (ks : List Text) → Sorted ks → Increasing (dedup ks)
unfolding dedup
dedup-Increasing [] s = tt
dedup-Increasing (k ∷ []) s = (tt, tt)
dedup-Increasing (k ∷ j ∷ ks) s = elim (Bool-cases (text_eq k j)) [
  | inl same ↦ rw same (dedup-Increasing (j ∷ ks) s.1)
  | inr other ↦
      let below = neighbour_below k j s.0.0 other in
      rw other (
        dedup-BelowAll k (j ∷ ks) (below, LeAll-BelowAll k j ks below s.1.0),
        dedup-Increasing (j ∷ ks) s.1,
      )
]

-- `sorted_resource_keys` gives strictly increasing keys: no key is locked twice.
pub sorted_resource_keys-Increasing : (ks : List Text) → Increasing (sorted_resource_keys ks)
unfolding sorted_resource_keys
sorted_resource_keys-Increasing ks = dedup-Increasing (sort ks) (sort-Sorted ks)

elem-insert_key :
    (t k : Text) (ks : List Text) → elem t (insert_key k ks) ≡ (text_eq t k || elem t ks)
unfolding elem insert_key
elem-insert_key t k [] = refl
elem-insert_key t k (j ∷ ks) = grind (arith, elem-insert_key t k ks)

elem-sort : (t : Text) (ks : List Text) → elem t (sort ks) ≡ elem t ks
unfolding elem sort
elem-sort t [] = refl
elem-sort t (k ∷ ks) = grind (arith, elem-sort t ks, elem-insert_key t k (sort ks))

elem-dedup : (t : Text) (ks : List Text) → elem t (dedup ks) ≡ elem t ks
unfolding elem dedup
elem-dedup t [] = refl
elem-dedup t (k ∷ []) = refl
elem-dedup t (k ∷ j ∷ ks) = elim (Bool-cases (text_eq k j)) [
  | inl same ↦ rw same (rw ((text_eq_iff k j).0 same) grind (arith, elem-dedup t (j ∷ ks)))
  | inr other ↦ grind (arith, elem-dedup t (j ∷ ks))
]

-- `sorted_resource_keys` has the keys it is given, and no other.
pub elem-sorted_resource_keys :
    (t : Text) (ks : List Text) → elem t (sorted_resource_keys ks) ≡ elem t ks
unfolding sorted_resource_keys
elem-sorted_resource_keys t ks = elem-dedup t (sort ks) ∙ elem-sort t ks

-- ===== src/Authz/Patterns.antt =====
-- Patterns of actions by what they denote.
use ferrite_mcp.Prelude.{
  ℕ, ap, sym, subst, ◌∙◌, refl, inl, inr, ◌≡◌, ◌↔◌, Bool, true, false, ◌&&◌, Option, none, some, [],
  ◌∷◌, ◌++◌, length, length-append, ltb, if◌then◌else◌, arith, Text, codes, text_eq, text_eq_iff,
  text_eq_refl, starts_with, starts_with_iff, starts_with-append, byte_len, byte_len-append,
  len_utf8_bounds, Bool-cases,
}
use ferrite_mcp.Authz.Policy.{cons_some, strip_dot_star, matches_action}

-- What a pattern denotes: everything, what goes on behind the prefix of a `.*`, or itself.
pub data Matches : Text → Text → Type 0 where
  star : {action : Text} → Matches (codes "*") action
  family : (p : Text) (c : ℕ) (rest : Text) → Matches (p ++ codes ".*") (p ++ c ∷ rest)
  exact : {p : Text} → Matches p p

length-dot_star : (c : ℕ) (p : Text) → text_eq (c ∷ p ++ codes ".*") (codes ".*") ≡ false
length-dot_star c p = elim (Bool-cases (text_eq (c ∷ p ++ codes ".*") (codes ".*"))) [
  | inr other ↦ other
  | inl same ↦ absurd (
      omega (
        arith,
        ap length ((text_eq_iff (c ∷ p ++ codes ".*") (codes ".*")).0 same),
        length-append p (codes ".*"),
      ))
]

strip-append : (p : Text) → strip_dot_star (p ++ codes ".*") ≡ some p
unfolding strip_dot_star cons_some text_eq
strip-append [] = refl
strip-append (c ∷ p) = rw (length-dot_star c p) (rw (strip-append p) refl)

some_inj : {p q : Text} → some p ≡ some q → p ≡ q
some_inj e = cc

cons_some_lem :
    (c : ℕ) (o : Option Text) (p : Text)
    → cons_some c o ≡ some p
    → (q : Text) × (o ≡ some q) × (c ∷ q ≡ p)
unfolding cons_some
cons_some_lem c none p h = cc
cons_some_lem c (some q) p h = (q, refl, some_inj h)

strip_lem : (t p : Text) → strip_dot_star t ≡ some p → t ≡ p ++ codes ".*"
unfolding strip_dot_star
strip_lem [] p h = cc
strip_lem (c ∷ t) p h = elim (Bool-cases (text_eq (c ∷ t) (codes ".*"))) [
  | inl same ↦
      (text_eq_iff (c ∷ t) (codes ".*")).0 same
      ∙ ap (λ q. q ++ codes ".*") (some_inj (subst Stripped same h))
  | inr other ↦
      let (q, e, joined) = cons_some_lem c (strip_dot_star t) p (subst Stripped other h) in
      ap (λ u. c ∷ u) (strip_lem t q e) ∙ ap (λ q. q ++ codes ".*") joined
]
  where
    Stripped : Bool → Type 0
    Stripped b = (if b then some [] else cons_some c (strip_dot_star t)) ≡ some p

byte_len-family :
    (p : Text) (c : ℕ) (rest : Text) → ltb (byte_len p) (byte_len (p ++ c ∷ rest)) ≡ true
byte_len-family p c rest = ground (arith, byte_len-append p (c ∷ rest), (len_utf8_bounds c).0)

family_lem :
    (p action rest : Text)
    → action ≡ p ++ rest
    → ltb (byte_len p) (byte_len action) ≡ true
    → Matches (p ++ codes ".*") action
family_lem p action [] e longer = absurd (ground (arith, ap byte_len e, byte_len-append p []))
family_lem p action (c ∷ rest) e longer =
    subst (Matches (p ++ codes ".*")) (sym e) (family p c rest)

-- the part of `matches_action` behind the test for `*`
behind_star : (o : Option Text) → (pattern action : Text) → Bool
behind_star none pattern action = text_eq pattern action
behind_star (some prefix) pattern action =
    starts_with prefix action && ltb (byte_len prefix) (byte_len action)

behind_star_lem :
    (o : Option Text) (pattern action : Text)
    → strip_dot_star pattern ≡ o
    → behind_star o pattern action ≡ true
    → Matches pattern action
unfolding behind_star
behind_star_lem none pattern action e h =
    subst (Matches pattern) ((text_eq_iff pattern action).0 h) exact
behind_star_lem (some p) pattern action e h =
    let (rest, joined) = starts_with_iff p action (ground arith) in
    subst (λ t. Matches t action) (sym (strip_lem pattern p e))
      (family_lem p action rest joined (ground arith))

matches_action-behind :
    (pattern action : Text)
    → matches_action pattern action ≡ (
        if text_eq pattern (codes "*")
        then true
        else behind_star (strip_dot_star pattern) pattern action)
unfolding matches_action behind_star
matches_action-behind pattern action =
    elim (strip_dot_star pattern)
      as (λ o.
        (if text_eq pattern (codes "*") then true else elim o [
          | some prefix ↦ starts_with prefix action && ltb (byte_len prefix) (byte_len action)
          | none ↦ text_eq pattern action
        ])
        ≡ (if text_eq pattern (codes "*") then true else behind_star o pattern action)) [
          | none ↦ refl
          | some p ↦ refl
        ]

matches_action_sound :
    (pattern action : Text) → matches_action pattern action ≡ true → Matches pattern action
matches_action_sound pattern action h = elim (Bool-cases (text_eq pattern (codes "*"))) [
  | inl is_star ↦
      subst (λ t. Matches t action) (sym ((text_eq_iff pattern (codes "*")).0 is_star)) star
  | inr other ↦
      behind_star_lem (strip_dot_star pattern) pattern action refl
        (subst Rest other (sym (matches_action-behind pattern action) ∙ h))
]
  where
    Rest : Bool → Type 0
    Rest b = (if b then true else behind_star (strip_dot_star pattern) pattern action) ≡ true

-- the families that `*` itself is not one of
family_match :
    (p : Text) (c : ℕ) (rest : Text) → matches_action (p ++ codes ".*") (p ++ c ∷ rest) ≡ true
unfolding behind_star
family_match p c rest =
    matches_action-behind (p ++ codes ".*") (p ++ c ∷ rest)
    ∙ rw (strip-append p) (grind (arith, starts_with-append p (c ∷ rest), byte_len-family p c rest))

exact_match :
    (p : Text) (o : Option Text)
    → strip_dot_star p ≡ o
    → (if text_eq p (codes "*") then true else behind_star o p p) ≡ true
unfolding behind_star
exact_match p none e = grind (arith, text_eq_refl p)
exact_match p (some q) e = grind (
  arith,
  ap (starts_with q) (strip_lem p q e),
  starts_with-append q (codes ".*"),
  ap (λ t. ltb (byte_len q) (byte_len t)) (strip_lem p q e),
  byte_len-family q b'.' (codes "*"),
)

matches_action_complete :
    (pattern action : Text) → Matches pattern action → matches_action pattern action ≡ true
unfolding matches_action text_eq
matches_action_complete _ action star = refl
matches_action_complete _ _ (family p c rest) = family_match p c rest
matches_action_complete p _ exact =
    matches_action-behind p p ∙ exact_match p (strip_dot_star p) refl

-- A pattern matches an action exactly where it is `*`, is a `p.*` of which `p` is a proper prefix of the
-- action, or is the action.
pub matches_action-Matches :
    (pattern action : Text) → (matches_action pattern action ≡ true) ↔ Matches pattern action
matches_action-Matches pattern action =
    (matches_action_sound pattern action, matches_action_complete pattern action)

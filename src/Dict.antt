-- ===== src/Dict.antt =====
-- `HashMap<String, V>` as an association list. The program looks keys up, inserts and removes them;
-- what it iterates over is in the order of the list here, where Rust leaves it open.
use ferrite_mcp.Prelude.{
  ◌≡◌, Bool, true, false, Option, none, some, List, [], ◌∷◌, arith, if◌then◌else◌, Text, text_eq,
  text_eq_iff,
}

abbrev pub Dict {ℓ} : Type ℓ → Type ℓ
Dict V = List (Text × V)

module _ {ℓ} {V : Type ℓ} where
  unfoldable pub get : Dict V → Text → Option V
  get [] k = none
  get ((j, v) ∷ d) k = if text_eq j k then some v else get d k

  unfoldable pub remove : Dict V → Text → Dict V
  remove [] k = []
  remove ((j, v) ∷ d) k = let rest = remove d k in if text_eq j k then rest else (j, v) ∷ rest

  unfoldable pub insert : Dict V → Text → V → Dict V
  unfolding remove
  insert d k v = (k, v) ∷ remove d k

  abbrev pub contains_key : Dict V → Text → Bool
  contains_key d k = elim (get d k) [ none ↦ false | some v ↦ true ]

  pub get-remove :
      (d : Dict V) (k j : Text) → get (remove d k) j ≡ (if text_eq k j then none else get d j)
  unfolding get remove
  get-remove [] k j = ground arith
  get-remove ((i, v) ∷ d) k j =
      ground (arith, get-remove d k j, text_eq_iff i k, text_eq_iff i j, text_eq_iff k j)

  pub get-insert :
      (d : Dict V) (k j : Text) (v : V)
      → get (insert d k v) j ≡ (if text_eq k j then some v else get d j)
  unfolding get insert
  get-insert d k j v = ground (arith, get-remove d k j)

-- ===== src/Edit/Rollback.antt =====
-- What `roll_back` restores.
use ferrite_mcp.Prelude.{
  ℕ, ◌+◌, ◌≤◌, ◌≡◌, refl, sym, ap, subst, ◌∙◌, Bool, true, false, Option, none, some, List, [], ◌∷◌,
  if◌then◌else◌, arith, Text, text_eq, text_eq_refl, text_eq_iff, Bool-cases, inl, inr, ◌||◌, ◌⊎◌,
}
use mathlib.Core.Path.{fun_ext}
use ferrite_mcp.Edit.Content.{Bytes}
use ferrite_mcp.Edit.Disk.{Entry, absent, file, other, Disk, System, put}
use ferrite_mcp.Edit.Answers.{is_free, calm, replaced, atomic_write-calm}
use ferrite_mcp.Edit.Transaction.{StagedEntry, remove_at, restore, roll_back}

-- the bytes of a regular file
unfoldable pub bytes_of : Entry → Option Bytes
bytes_of absent = none
bytes_of (file content mode) = some content
bytes_of other = none

-- some entry is of this path
unfoldable pub touched : List StagedEntry → Text → Bool
touched [] q = false
touched (e ∷ es) q = text_eq e.path q || touched es q

-- what an entry remembers of the time before the transaction
abbrev pub remembered : StagedEntry → Option Bytes
remembered e = if e.pre_existed then some e.pre_bytes else none

-- every entry of `q` remembers `old`
abbrev pub Remember : Text → Option Bytes → List StagedEntry → Type 0
Remember q old [] = Unit {0}
Remember q old (e ∷ es) = (text_eq e.path q ≡ true → remembered e ≡ old) × Remember q old es

text_eq_comm : (s t : Text) → text_eq s t ≡ text_eq t s
unfolding text_eq
text_eq_comm [] [] = refl
text_eq_comm [] (y ∷ t) = refl
text_eq_comm (x ∷ s) [] = refl
text_eq_comm (x ∷ s) (y ∷ t) = ground (arith, text_eq_comm s t)

module _ (sys : System) where
  -- no temporary file's name is taken, and no path of the entries is one or holds a directory
  abbrev pub Ready : Disk → ℕ → List StagedEntry → Type 0
  Ready d n es =
      ((m : ℕ) (p : Text) → n ≤ m → d (sys.tmp m p) ≡ absent)
      × ((p : Text)
          → touched es p ≡ true
          → (is_free (d p) ≡ true) × ((m : ℕ) (r : Text) → text_eq (sys.tmp m r) p ≡ false))

  -- what restoring one entry makes of a disk
  abbrev restored : StagedEntry → Disk → ℕ → Disk
  restored e d n =
      if e.pre_existed then replaced sys e.path e.pre_bytes none d n else put d e.path absent

  abbrev turn : StagedEntry → ℕ → ℕ
  turn e n = if e.pre_existed then n + 1 else n

  restored_here :
      (e : StagedEntry) (d : Disk) (n : ℕ) → bytes_of (restored e d n e.path) ≡ remembered e
  unfolding bytes_of
  restored_here e d n = elim (Bool-cases e.pre_existed) [
    | inl was ↦ rw (was, text_eq_refl e.path) refl
    | inr not_was ↦ rw (not_was, text_eq_refl e.path) refl
  ]

  restored_there :
      (e : StagedEntry) (d : Disk) (n : ℕ) (q : Text)
      → text_eq e.path q ≡ false
      → text_eq (sys.tmp n e.path) q ≡ false
      → restored e d n q ≡ d q
  restored_there e d n q other_path apart = elim (Bool-cases e.pre_existed) [
    | inl was ↦ rw (was, other_path, apart) refl
    | inr not_was ↦ rw (not_was, other_path) refl
  ]

  restored_free :
      (e : StagedEntry) (d : Disk) (n : ℕ) (q : Text)
      → is_free (d q) ≡ true
      → is_free (restored e d n q) ≡ true
  unfolding is_free
  restored_free e d n q h = elim (Bool-cases e.pre_existed) [
    | inl was ↦ elim (Bool-cases (text_eq e.path q)) [
      | inl here ↦ rw (was, here) refl
      | inr there ↦ elim (Bool-cases (text_eq (sys.tmp n e.path) q)) [
        | inl tmp ↦ rw (was, there, tmp) refl
        | inr apart ↦ rw (was, there, apart) h
      ]
    ]
    | inr not_was ↦ elim (Bool-cases (text_eq e.path q)) [
      | inl here ↦ rw (not_was, here) refl
      | inr there ↦ rw (not_was, there) h
    ]
  ]

  restored_tmp :
      (e : StagedEntry) (d : Disk) (n : ℕ) (t : Text)
      → text_eq e.path t ≡ false
      → d t ≡ absent
      → restored e d n t ≡ absent
  restored_tmp e d n t apart h = elim (Bool-cases e.pre_existed) [
    | inl was ↦ elim (Bool-cases (text_eq (sys.tmp n e.path) t)) [
      | inl tmp ↦ rw (was, apart, tmp) refl
      | inr there ↦ rw (was, apart, there) h
    ]
    | inr not_was ↦ rw (not_was, apart) h
  ]

  removed_gone : (d : Disk) (path : Text) → d path ≡ absent → (q : Text) → d q ≡ put d path absent q
  removed_gone d path h q = elim (Bool-cases (text_eq path q)) [
    | inl here ↦ rw here (subst (λ p. d p ≡ absent) ((text_eq_iff path q).0 here) h)
    | inr there ↦ rw there refl
  ]

  remove_at-calm :
      (path : Text) (e : Entry) (d : Disk) (n : ℕ)
      → d path ≡ e
      → is_free e ≡ true
      → (remove_at path e (calm d n)).1 ≡ calm (put d path absent) n
  unfolding remove_at is_free
  remove_at-calm path absent d n h free = ap (λ c. calm c n) (fun_ext (removed_gone d path h))
  remove_at-calm path (file content mode) d n h free = refl
  remove_at-calm path other d n h free = absurd (ground arith)

  restore-calm :
      (e : StagedEntry) (d : Disk) (n : ℕ)
      → d (sys.tmp n e.path) ≡ absent
      → text_eq (sys.tmp n e.path) e.path ≡ false
      → is_free (d e.path) ≡ true
      → restore sys e (calm d n) ≡ calm (restored e d n) (turn e n)
  unfolding restore
  restore-calm e d n free apart fits = elim (Bool-cases e.pre_existed) [
    | inl was ↦ rw (was, atomic_write-calm sys e.path e.pre_bytes none d n free apart fits) refl
    | inr not_was ↦ rw not_was (remove_at-calm e.path (d e.path) d n refl fits)
  ]

  turn_le : (e : StagedEntry) (n : ℕ) → n ≤ turn e n
  turn_le e n = ground arith

  restored-Ready :
      (e : StagedEntry) (es : List StagedEntry) (d : Disk) (n : ℕ)
      → Ready d n (e ∷ es)
      → Ready (restored e d n) (turn e n) es
  unfolding touched
  restored-Ready e es d n (free, paths) = (
    (λ m p le.
        restored_tmp e d n (sys.tmp m p)
          (text_eq_comm e.path (sys.tmp m p) ∙ (paths e.path (rw (text_eq_refl e.path) refl)).1 m p)
          (free m p (omega (arith, turn_le e n, le)))),
    (λ p t. let ok_p = paths p (ground arith) in (restored_free e d n p ok_p.0, ok_p.1)),
  )

  -- When the calls of a roll back succeed, no temporary file's name is taken, and no path of the entries is a
  -- temporary file's or holds a directory, a path holds after the roll back the bytes `old` that all the
  -- entries of this path remember, or nothing where they remember that there was nothing, if it has an entry
  -- or held `old`. The permissions are not restored.
  pub roll_back-bytes_of :
      (q : Text) (old : Option Bytes) (es : List StagedEntry) (d : Disk) (n : ℕ)
      → ((m : ℕ) (r : Text) → text_eq (sys.tmp m r) q ≡ false)
      → Ready d n es
      → Remember q old es
      → (touched es q ≡ true) ⊎ (bytes_of (d q) ≡ old)
      → bytes_of ((roll_back sys es (calm d n)).disk q) ≡ old
  unfolding roll_back touched
  roll_back-bytes_of q old [] d n apart ready remember (inl none_left) = absurd (ground arith)
  roll_back-bytes_of q old [] d n apart ready remember (inr same) = same
  roll_back-bytes_of q old (e ∷ es) d n apart ready (mine, rest) held =
      let here = ready.1 e.path (rw (text_eq_refl e.path) refl) in
      ap (λ w. bytes_of ((roll_back sys es w).disk q))
        (restore-calm e d n (ready.0 n e.path (omega arith)) (here.1 n e.path) here.0)
      ∙ roll_back-bytes_of q old es (restored e d n) (turn e n) apart
          (restored-Ready e es d n ready) rest (after_turn (Bool-cases (text_eq e.path q)) held)
    where
      after_turn :
          (text_eq e.path q ≡ true) ⊎ (text_eq e.path q ≡ false)
          → (text_eq e.path q || touched es q ≡ true) ⊎ (bytes_of (d q) ≡ old)
          → (touched es q ≡ true) ⊎ (bytes_of (restored e d n q) ≡ old)
      after_turn (inl yes_here) h = inr (
          ap (λ p. bytes_of (restored e d n p)) (sym ((text_eq_iff e.path q).0 yes_here))
          ∙ (restored_here e d n ∙ mine yes_here))
      after_turn (inr there) (inl t) = inl (ground arith)
      after_turn (inr there) (inr same) =
          inr (ap bytes_of (restored_there e d n q there (apart n e.path)) ∙ same)

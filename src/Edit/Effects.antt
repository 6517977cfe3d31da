-- ===== src/Edit/Effects.antt =====
-- What code does to the regular files of the disk: leaving them, or setting one.
use ferrite_mcp.Prelude.{
  ℕ, ◌≡◌, refl, ap, ◌∙◌, Bool, true, false, Option, none, some, [], if◌then◌else◌, Text, text_eq,
  Bool-cases, inl, inr, Result, ok, err,
}
use ferrite_mcp.Edit.Content.{Bytes}
use ferrite_mcp.Edit.Disk.{
  Entry, absent, file, other, Disk, World, EditError, Io, Outcome, Done, open_at, after, ◌>>=◌, put,
  fails, call, remove_failed,
}

-- the content and the permissions of a regular file
unfoldable pub view : Entry → Option (Bytes × ℕ)
view absent = none
view (file content mode) = some (content, mode)
view other = none

unfoldable pub is_ok : {A : Type 0} → Result EditError A → Bool
is_ok (ok a) = true
is_ok (err e) = false

-- what a path holds in a world
abbrev pub at : Text → World → Option (Bytes × ℕ)
at q w = view (w.disk q)

-- code after which `q` holds what it held
abbrev pub Leaves : {A : Type 0} → Text → Io A → Type 0
Leaves q m = (w : World) → at q (m w).1 ≡ at q w

abbrev pub Change : Type 0
Change = Option (Bytes × ℕ) → Option (Bytes × ℕ)

-- code that changes what `q` holds by `v` when it succeeds, and leaves it when it fails
abbrev pub Sets : {A : Type 0} → Text → Change → Io A → Type 0
Sets q v m = (w : World) → at q (m w).1 ≡ (if is_ok (m w).0 then v (at q w) else at q w)

module _ {A B : Type 0} (q : Text) (f : A → Io B) where
  pub after-Leaves : (r : Outcome A) → ((a : A) → Leaves q (f a)) → at q (after r f).1 ≡ at q r.1
  after-Leaves (ok a, w) h = h a w
  after-Leaves (err e, w) h = refl

  pub bind-Leaves : (m : Io A) → Leaves q m → ((a : A) → Leaves q (f a)) → Leaves q (m >>= f)
  bind-Leaves m hm hf w = after-Leaves (m w) hf ∙ hm w

  pub after-Sets :
      (v : Change) (r : Outcome A)
      → ((a : A) → Sets q v (f a))
      → at q (after r f).1 ≡ (if is_ok (after r f).0 then v (at q r.1) else at q r.1)
  unfolding is_ok
  after-Sets v (ok a, w) h = h a w
  after-Sets v (err e, w) h = refl

  pub bind-Sets :
      (v : Change) (m : Io A) → Leaves q m → ((a : A) → Sets q v (f a)) → Sets q v (m >>= f)
  bind-Sets v m hm hf w =
      after-Sets v (m w) hf ∙ ap (λ x. if is_ok (after (m w) f).0 then v x else x) (hm w)

module _ (q : Text) where
  pub call-Leaves :
      (path : Text) (change : Disk → Disk)
      → ((d : Disk) → view (change d q) ≡ view (d q))
      → Leaves q (call path change)
  call-Leaves path change h w = elim (Bool-cases (fails w)) [
    | inl failed ↦ rw failed refl
    | inr done ↦ rw done (h w.disk)
  ]

  pub put-Leaves :
      (d : Disk) (p : Text) (e : Entry) → text_eq p q ≡ false → view (put d p e q) ≡ view (d q)
  put-Leaves d p e h = rw h refl

  pub remove_failed-Leaves :
      (tmp : Text) (r : Outcome Done)
      → text_eq tmp q ≡ false
      → at q (remove_failed tmp r).1 ≡ at q r.1
  unfolding remove_failed
  remove_failed-Leaves tmp (ok u, w) h = refl
  remove_failed-Leaves tmp (err e, w) h =
      call-Leaves tmp (λ d. put d tmp absent) (λ d. put-Leaves d tmp absent h) w

  pub remove_failed-is_ok :
      (tmp : Text) (r : Outcome Done) → is_ok (remove_failed tmp r).0 ≡ is_ok r.0
  unfolding remove_failed is_ok
  remove_failed-is_ok tmp (ok u, w) = refl
  remove_failed-is_ok tmp (err e, w) = refl

  pub open_at-Leaves :
      (tmp : Text) (mode : ℕ) (e : Entry) → text_eq tmp q ≡ false → Leaves q (open_at tmp mode e)
  unfolding open_at
  open_at-Leaves tmp mode absent h =
      call-Leaves tmp (λ d. put d tmp (file [] mode)) (λ d. put-Leaves d tmp (file [] mode) h)
  open_at-Leaves tmp mode (file content m) h = λ w. refl
  open_at-Leaves tmp mode other h = λ w. refl

  pub call-Sets :
      (path : Text) (change : Disk → Disk) (v : Change)
      → ((d : Disk) → view (change d q) ≡ v (view (d q)))
      → Sets q v (call path change)
  unfolding is_ok
  call-Sets path change v h w = elim (Bool-cases (fails w)) [
    | inl failed ↦ rw failed refl
    | inr done ↦ rw done (h w.disk)
  ]

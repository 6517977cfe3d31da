-- ===== src/Server/Completes.antt =====
-- No call waits for ever if no other comes in.
use ferrite_mcp.Prelude.{
  ℕ, zero, suc, ◌<◌, ◌≡◌, ◌≢◌, refl, ap, ◌∙◌, ◌⊎◌, inl, inr, arith, dec_lt, false,
}
use ferrite_mcp.Server.Scheduler.{
  Request, conflict, same_lock, Thread, working, finished, System, Step, acquire, return, Reach,
  later,
}
use ferrite_mcp.Server.Progress.{Progress, returns, takes, Reach-Progress}
use ferrite_mcp.Server.Work.{steps_left, total, work, acquire-work, return-work}

-- some steps, one after the other
pub data Steps : ℕ → System → System → Type 0 where
  none : {s : System} → Steps 0 s s
  some : {n : ℕ} {s t u : System} → Step s t → Steps n t u → Steps (suc n) s u

-- the calls that are there have all returned, and no other has come in
pub record Completed (s t : System) : Type 0 where
  pub nobody_new : t.count ≡ s.count
  pub all_finished : (i : ℕ) → i < t.count → t.thread i ≡ finished

below_or_last : (n i : ℕ) → i < suc n → (i < n) ⊎ (i ≡ n)
below_or_last n i h = elim (dec_lt i n) [ yes b ↦ inl b | no b ↦ inr (omega arith) ]

free_of : (r q : Request) → same_lock r.lock q.lock ≡ false → conflict r q ≡ false
unfolding conflict
free_of r q h = rw h refl

total-finished : (n : ℕ) (f : ℕ → Thread) → ((i : ℕ) → i < n → f i ≡ finished) → total n f ≡ 0
total-finished zero f h = refl
total-finished (suc n) f h =
    omega (arith, total-finished n f (λ i lt. h i (omega arith)), ap steps_left (h n (omega arith)))

find_unfinished :
    (n : ℕ) (f : ℕ → Thread)
    → ((i : ℕ) × (i < n) × (f i ≢ finished)) ⊎ ((i : ℕ) → i < n → f i ≡ finished)
find_unfinished zero f = inr (λ i h. absurd (omega arith))
find_unfinished (suc n) f = elim (find_unfinished n f) [
  | inl (i, lt, un) ↦ inl (i, omega arith, un)
  | inr done ↦ at_last (f n) refl done
]
  where
    at_last :
        (t : Thread)
        → f n ≡ t
        → ((i : ℕ) → i < n → f i ≡ finished)
        → ((i : ℕ) × (i < suc n) × (f i ≢ finished)) ⊎ ((i : ℕ) → i < suc n → f i ≡ finished)
    at_last (working p held todo) e done = inl (n, omega arith, λ h. absurd (cc))
    at_last finished e done =
        inr (λ i lt. elim (below_or_last n i lt) [
          | inl below ↦ done i below
          | inr top ↦ ap f top ∙ e
        ])

-- a step that can be taken, with the work that it leaves
next_step :
    (s : System)
    → Progress s
    → (t : System) × Step s t × (t.count ≡ s.count) × (suc (work t) ≡ work s)
next_step s (returns j p held lt e) = (_, return j p held lt e, refl, return-work s j p held lt e)
next_step s (takes j p held todo r lt e unheld) = (
  _,
  acquire j p held todo r lt e (λ k lt_k ne q m. free_of r q (unheld k q lt_k m)),
  refl,
  acquire-work s j p held todo r lt e,
)

completes : (n : ℕ) (s : System) → Reach s → work s ≡ n → (t : System) × Steps n s t × Completed s t
completes zero s r left = elim (find_unfinished s.count s.thread) [
  | inl (i, lt, un) ↦
      let (t, step, same, less) = next_step s (Reach-Progress r i lt un) in absurd (omega arith)
  | inr all ↦ (s, none, record { nobody_new = refl; all_finished = all })
]
completes (suc n) s r left = elim (find_unfinished s.count s.thread) [
  | inl (i, lt, un) ↦
      let (t, step, same, less) = next_step s (Reach-Progress r i lt un) in
      let (u, steps, c) = completes n t (later r step) (omega arith) in
      (
        u,
        some step steps,
        record { nobody_new = c.nobody_new ∙ same; all_finished = c.all_finished },
      )
  | inr all ↦ absurd (omega (arith, total-finished s.count s.thread all))
]

-- From every reachable state of the scheduler there is a run in which no call comes in and all the calls that
-- are there return; it has as many steps as these calls have locks to take and returns left.
pub Reach-completes : {s : System} → Reach s → (t : System) × Steps (work s) s t × Completed s t
Reach-completes {s} r = completes (work s) s r refl

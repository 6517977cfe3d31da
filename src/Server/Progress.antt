-- ===== src/Server/Progress.antt =====
-- Liveness of the scheduler: locks are taken in one order, so no set of calls waits in a circle.
use ferrite_mcp.Prelude.{
  ℕ, zero, suc, ◌<◌, sym, subst, ◌∙◌, ◌≡◌, ◌≢◌, refl, ◌⊎◌, inl, inr, Bool, true, false, List, [],
  ◌∷◌, Option, some, none, arith, Bool-cases, dec_lt,
}
use ferrite_mcp.Server.Scheduler.{
  ToolExecutionPolicy, Request, same_lock, Thread, working, finished, System, In, held_by, Reach,
}
use ferrite_mcp.Server.Order.{
  lock_ltb, lock_ltb_irrefl, lock_ltb_trans, same_lock_iff, Ordered, plan-Ordered, Ordered-held,
}
use ferrite_mcp.Server.Invariant.{Planned, Reach-Inv}

-- the lock that a thread waits for
abbrev next : Thread → Option Request
next (working p held []) = none
next (working p held (r ∷ todo)) = some r
next finished = none

-- a thread that holds all its locks
abbrev Running : Thread → Type 0
Running (working p held []) = Unit
Running (working p held (r ∷ todo)) = ⊥
Running finished = ⊥

Running-dec : (t : Thread) → Running t ⊎ ¬ Running t
Running-dec (working p held []) = inl tt
Running-dec (working p held (r ∷ todo)) = inr (λ x. x)
Running-dec finished = inr (λ x. x)

contradiction : {x : Bool} → x ≡ true → x ≡ false → ⊥
contradiction p q = cc

-- among the first `n` threads one runs, or none does
find-Running :
    (f : ℕ → Thread) (n : ℕ)
    → ((j : ℕ) × (j < n) × Running (f j)) ⊎ ((j : ℕ) → j < n → ¬ Running (f j))
find-Running f zero = inr (λ j h. absurd (omega arith))
find-Running f (suc n) = elim (find-Running f n) [
  | inl (j, lt, run) ↦ inl (j, omega arith, run)
  | inr none_below ↦ elim (Running-dec (f n)) [
    | inl run ↦ inl (n, omega arith, run)
    | inr idle ↦ inr (λ j h. elim (dec_lt j n) [
      | yes lt ↦ none_below j lt
      | no last ↦ subst (λ k. ¬ Running (f k)) (omega arith) idle
    ])
  ]
]

-- `r` is the last lock, in the order, that one of the first `n` threads waits for
Last : (ℕ → Thread) → ℕ → Request → Type 0
Last f n r = (k : ℕ) (q : Request) → k < n → next (f k) ≡ some q → lock_ltb r.lock q.lock ≡ false

Last-suc :
    (f : ℕ → Thread) (n : ℕ) (r : Request)
    → Last f n r
    → ((q : Request) → next (f n) ≡ some q → lock_ltb r.lock q.lock ≡ false)
    → Last f (suc n) r
unfolding Last
Last-suc f n r last here k q lt e = elim (dec_lt k n) [
  | yes below ↦ last k q below e
  | no top ↦ here q (subst (λ j. next (f j) ≡ some q) (omega arith) e)
]

Last-later :
    (f : ℕ → Thread) (n : ℕ) (r o : Request)
    → Last f n r
    → lock_ltb r.lock o.lock ≡ true
    → Last f n o
unfolding Last
Last-later f n r o last after k q lt e = elim (Bool-cases (lock_ltb o.lock q.lock)) [
  | inr no_lt ↦ no_lt
  | inl below ↦
      absurd (contradiction (lock_ltb_trans r.lock o.lock q.lock after below) (last k q lt e))
]

Option-cases : (o : Option Request) → (o ≡ none) ⊎ ((r : Request) × (o ≡ some r))
Option-cases none = inl refl
Option-cases (some r) = inr (r, refl)

some-lock : (r q : Request) → some r ≡ some q → q ≡ r
some-lock r q e = cc

some-none : {o : Option Request} {r : Request} → o ≡ none → o ≡ some r → ⊥
some-none a b = cc

none_waits :
    (f : ℕ → Thread) (n : ℕ) (o : Request) → ((j : ℕ) → j < n → next (f j) ≡ none) → Last f n o
unfolding Last
none_waits f n o idle k q lt e = absurd (some-none (idle k lt) e)

find-Last :
    (f : ℕ → Thread) (n : ℕ)
    → ((j : ℕ) × (r : Request) × (j < n) × (next (f j) ≡ some r) × Last f n r)
      ⊎ ((j : ℕ) → j < n → next (f j) ≡ none)
find-Last f zero = inr (λ j h. absurd (omega arith))
find-Last f (suc n) = elim (find-Last f n) [
  | inl (j, r, lt, e, last) ↦ elim (Option-cases (next (f n))) [
    | inl idle ↦ inl (j, r, omega arith, e, Last-suc f n r last (λ q w. absurd (some-none idle w)))
    | inr (o, waits) ↦ elim (Bool-cases (lock_ltb r.lock o.lock)) [
      | inl after ↦ inl (
        n,
        o,
        omega arith,
        waits,
        Last-suc f n o (Last-later f n r o last after)
            (λ q w. rw (some-lock o q (sym waits ∙ w)) (lock_ltb_irrefl o.lock)),
      )
      | inr before ↦ inl (
        j,
        r,
        omega arith,
        e,
        Last-suc f n r last (λ q w. rw (some-lock o q (sym waits ∙ w)) before),
      )
    ]
  ]
  | inr idle ↦ elim (Option-cases (next (f n))) [
    | inl none_here ↦ inr (λ j h. elim (dec_lt j n) [
      | yes lt ↦ idle j lt
      | no top ↦ subst (λ k. next (f k) ≡ none) (omega arith) none_here
    ])
    | inr (o, waits) ↦ inl (
      n,
      o,
      omega arith,
      waits,
      Last-suc f n o (none_waits f n o idle)
          (λ q w. rw (some-lock o q (sym waits ∙ w)) (lock_ltb_irrefl o.lock)),
    )
  ]
]

-- Some thread can go on: it runs its tool and can return, or it waits for a lock that no thread holds.
pub data Progress (s : System) : Type 0 where
  returns :
      (j : ℕ) (p : ToolExecutionPolicy) (held : List Request)
      → j < s.count
      → s.thread j ≡ working p held []
      → Progress s
  takes :
      (j : ℕ) (p : ToolExecutionPolicy) (held todo : List Request) (r : Request)
      → j < s.count
      → s.thread j ≡ working p held (r ∷ todo)
      → ((k : ℕ) (q : Request)
          → k < s.count
          → In q (held_by (s.thread k))
          → same_lock r.lock q.lock ≡ false)
      → Progress s

Running-shape :
    (t : Thread)
    → Running t
    → (p : ToolExecutionPolicy) × (held : List Request) × (t ≡ working p held [])
Running-shape (working p held []) run = (p, held, refl)
Running-shape (working p held (r ∷ todo)) run = absurd run
Running-shape finished run = absurd run

next-shape :
    (t : Thread) (r : Request)
    → next t ≡ some r
    → (p : ToolExecutionPolicy) × (held : List Request) × (todo : List Request) × (t
        ≡ working p held (r ∷ todo))
next-shape (working p held []) r e = absurd cc
next-shape (working p held (q ∷ todo)) r e = (p, held, todo, rw (some-lock q r e) refl)
next-shape finished r e = absurd cc

-- a thread that holds the last lock waited for would run, or wait for a later one
held-Last :
    (t : Thread) (r q : Request)
    → Planned t
    → ¬ Running t
    → In q (held_by t)
    → ((o : Request) → next t ≡ some o → lock_ltb r.lock o.lock ≡ false)
    → same_lock r.lock q.lock ≡ false
held-Last (working p held []) r q plan_t idle m last = absurd (idle tt)
held-Last (working p held (o ∷ todo)) r q plan_t idle m last =
    elim (Bool-cases (same_lock r.lock q.lock)) [
      | inr other ↦ other
      | inl same ↦ absurd (
          contradiction
            (subst (λ l. lock_ltb l o.lock ≡ true) (sym (same_lock_iff r.lock q.lock same))
              (Ordered-held held todo o q
                (subst Ordered (sym plan_t) (plan-Ordered p.lane p.resource_keys)) m))
            (last o refl))
    ]
held-Last finished r q plan_t idle m last = absurd m

-- In every reachable state with a thread that has not finished, some thread runs its tool, or some thread
-- waits for a lock that no thread holds, for reading or for writing.
pub Reach-Progress :
    {s : System} → Reach s → (i : ℕ) → i < s.count → s.thread i ≢ finished → Progress s
unfolding Last
Reach-Progress {s} r i lt unfinished = elim (find-Running s.thread s.count) [
  | inl (j, lt_j, run) ↦
      let (p, held, e) = Running-shape (s.thread j) run in returns j p held lt_j e
  | inr idle ↦ elim (find-Last s.thread s.count) [
    | inl (j, o, lt_j, waits, last) ↦
        let (p, held, todo, e) = next-shape (s.thread j) o waits in
        takes j p held todo o lt_j e (λ k q lt_k m.
          held-Last (s.thread k) o q ((Reach-Inv r).planned k) (idle k lt_k) m (λ w. last k w lt_k))
    | inr none_wait ↦ absurd (nothing_left (s.thread i) unfinished (idle i lt) (none_wait i lt))
  ]
]
  where
    nothing_left : (t : Thread) → t ≢ finished → ¬ Running t → next t ≡ none → ⊥
    nothing_left (working p held []) a b c = b tt
    nothing_left (working p held (x ∷ todo)) a b c = some-none c refl
    nothing_left finished a b c = a refl

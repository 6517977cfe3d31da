-- ===== src/Server/Work.antt =====
-- The work that the threads of the scheduler have left.
use ferrite_mcp.Prelude.{
  ℕ, zero, suc, ◌+◌, ◌≤◌, ◌<◌, ap, ◌≡◌, ◌≢◌, refl, List, [], ◌∷◌, ◌++◌, length, arith, ℕ_discrete,
  dec_lt,
}
use mathlib.Core.Logic.{ite}
use ferrite_mcp.Server.Scheduler.{
  Request, ToolExecutionPolicy, Thread, working, finished, System, update,
}

-- the steps that a thread has left: its locks, and the return
abbrev pub steps_left : Thread → ℕ
steps_left (working p held todo) = suc (length todo)
steps_left finished = 0

abbrev pub total : ℕ → (ℕ → Thread) → ℕ
total zero f = 0
total (suc n) f = total n f + steps_left (f n)

abbrev pub work : System → ℕ
work s = total s.count s.thread

update_self : (f : ℕ → Thread) (i : ℕ) (t : Thread) → update f i t i ≡ t
update_self f i t = elim (ℕ_discrete i i) as (λ d. ite d t (f i) ≡ t) [
  | yes same ↦ refl
  | no other ↦ absurd (other refl)
]

update_other : (f : ℕ → Thread) (i j : ℕ) (t : Thread) → i ≢ j → update f i t j ≡ f j
update_other f i j t ne = elim (ℕ_discrete i j) as (λ d. ite d t (f j) ≡ f j) [
  | yes same ↦ absurd (ne same)
  | no other ↦ refl
]

total-update_above :
    (n : ℕ) (f : ℕ → Thread) (i : ℕ) (t : Thread) → n ≤ i → total n (update f i t) ≡ total n f
total-update_above zero f i t h = refl
total-update_above (suc n) f i t h = omega (
  arith,
  total-update_above n f i t (omega arith),
  ap steps_left (update_other f i n t (λ e. absurd (omega (arith, e)))),
)

total-update :
    (n : ℕ) (f : ℕ → Thread) (i : ℕ) (t : Thread)
    → i < n
    → total n (update f i t) + steps_left (f i) ≡ total n f + steps_left t
total-update zero f i t h = absurd (omega arith)
total-update (suc n) f i t h = elim (dec_lt i n) [
  | yes below ↦ omega (
    arith,
    total-update n f i t below,
    ap steps_left (update_other f i n t (λ e. absurd (omega (arith, e)))),
  )
  | no last ↦ at_top (omega arith)
]
  where
    at_top :
        i ≡ n
        → total n (update f i t) + steps_left (update f i t n) + steps_left (f i)
          ≡ total n f + steps_left (f n) + steps_left t
    at_top e = omega (
      arith,
      total-update_above n f i t (omega (arith, e)),
      ap (λ k. steps_left (f k)) e,
      ap (λ k. steps_left (update f i t k)) e,
      ap steps_left (update_self f i t),
    )

-- the shares of a thread that takes a lock, and of one that returns
pub acquire-work :
    (s : System) (i : ℕ) (p : ToolExecutionPolicy) (held todo : List Request) (r : Request)
    → i < s.count
    → s.thread i ≡ working p held (r ∷ todo)
    → suc (total s.count (update s.thread i (working p (held ++ r ∷ []) todo))) ≡ work s
acquire-work s i p held todo r lt e =
    omega
      (arith, total-update s.count s.thread i (working p (held ++ r ∷ []) todo) lt, ap steps_left e)

pub return-work :
    (s : System) (i : ℕ) (p : ToolExecutionPolicy) (held : List Request)
    → i < s.count
    → s.thread i ≡ working p held []
    → suc (total s.count (update s.thread i finished)) ≡ work s
return-work s i p held lt e =
    omega (arith, total-update s.count s.thread i finished lt, ap steps_left e)

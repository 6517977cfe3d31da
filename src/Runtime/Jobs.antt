-- ===== src/Runtime/Jobs.antt =====
-- crates/shell-runtime/src/jobs.rs: the job table. Ids are numbers that only grow.
use ferrite_mcp.Prelude.{
  ℕ, ◌+◌, ◌≤◌, ◌<◌, ◌≡◌, ◌≢◌, refl, Bool, Option, none, some, List, [], ◌∷◌, arith, ◌==◌,
  if◌then◌else◌, Text,
}
use ferrite_mcp.Runtime.State.{ExitStatus}

pub data JobStatus : Type 0 where
  running stopped : JobStatus
  done : ExitStatus → JobStatus

pub record Job : Type 0 where
  pub id : ℕ
  pub cmdline : Text
  pub pids : List ℕ
  pub status : JobStatus
  pub foreground : Bool

-- the map `jobs`, keyed by id, and `next_id`; `usize` does not wrap
pub record JobTable : Type 0 where
  pub jobs : List Job
  pub next_id : ℕ

abbrev pub new : JobTable
new = record { jobs = []; next_id = 0 }

unfoldable pub find : List Job → ℕ → Option Job
find [] i = none
find (j ∷ js) i = if j.id == i then some j else find js i

unfoldable pub without : List Job → ℕ → List Job
without [] i = []
without (j ∷ js) i = let rest = without js i in if j.id == i then rest else j ∷ rest

-- `add`: the table, and the id of the new job
unfoldable pub add : JobTable → Text → List ℕ → Bool → JobTable × ℕ
unfolding without
add t cmdline pids foreground =
    let job : Job = record {
      id = t.next_id;
      cmdline = cmdline;
      pids = pids;
      status = running;
      foreground = foreground;
    } in
    (record { jobs = job ∷ without t.jobs t.next_id; next_id = t.next_id + 1 }, t.next_id)

unfoldable pub get : JobTable → ℕ → Option Job
unfolding find
get t i = find t.jobs i

-- `remove`: the table, and the job that was taken out
unfoldable pub remove : JobTable → ℕ → JobTable × Option Job
unfolding find without
remove t i = (record t { jobs = without t.jobs i }, find t.jobs i)

-- every id in the table has been given out
abbrev Below : List Job → ℕ → Type 0
Below [] n = Unit {0}
Below (j ∷ js) n = (j.id < n) × Below js n

pub record IsValid (t : JobTable) : Type 0 where
  pub below : Below t.jobs t.next_id

Below-mono : (js : List Job) (m n : ℕ) → m ≤ n → Below js m → Below js n
Below-mono [] m n h b = tt
Below-mono (j ∷ js) m n h b = (omega arith, Below-mono js m n h b.1)

without-Below : (js : List Job) (i n : ℕ) → Below js n → Below (without js i) n
unfolding without
without-Below [] i n b = tt
without-Below (j ∷ js) i n b = ground (arith, without-Below js i n b.1)

find-Below : (js : List Job) (i n : ℕ) → Below js n → n ≤ i → find js i ≡ none
unfolding find
find-Below [] i n b h = refl
find-Below (j ∷ js) i n b h = ground (arith, find-Below js i n b.1)

find-without :
    (js : List Job) (i k : ℕ) → find (without js i) k ≡ (if i == k then none else find js k)
unfolding find without
find-without [] i k = ground arith
find-without (j ∷ js) i k = ground (arith, find-without js i k)

-- In a valid table a new job gets an id that no job has, is found under it, leaves every other
-- job in place, and leaves the table valid.
pub add_lem :
    (t : JobTable) (cmdline : Text) (pids : List ℕ) (foreground : Bool)
    → IsValid t
    → let r = add t cmdline pids foreground in
      (get t r.1 ≡ none)
      × ((k : ℕ) → k ≢ r.1 → get r.0 k ≡ get t k)
      × (get r.0 r.1
          ≡ some (record {
            id = r.1;
            cmdline = cmdline;
            pids = pids;
            status = running;
            foreground = foreground;
          }))
      × IsValid r.0
unfolding add get
add_lem t cmdline pids foreground v = (
  find-Below t.jobs t.next_id t.next_id v.below (omega arith),
  (λ k ne. ground (arith, find-without t.jobs t.next_id k)),
  ground arith,
  record {
    below = (
      omega arith,
      Below-mono (without t.jobs t.next_id) t.next_id (t.next_id + 1) (omega arith)
          (without-Below t.jobs t.next_id t.next_id v.below),
    );
  },
)

-- Removing a job returns what `get` showed, hides that id alone, and keeps the table valid.
pub remove_lem :
    (t : JobTable) (i : ℕ)
    → IsValid t
    → let r = remove t i in
      (r.1 ≡ get t i) × ((k : ℕ) → get r.0 k ≡ (if i == k then none else get t k)) × IsValid r.0
unfolding remove get
remove_lem t i v = (
  refl,
  (λ k. find-without t.jobs i k),
  record { below = without-Below t.jobs i t.next_id v.below },
)

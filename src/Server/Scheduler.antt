-- ===== src/Server/Scheduler.antt =====
-- `ExecutionScheduler::run`: the locks that a tool call takes, and the threads that take them. A lock is
-- named by its key, as in the map of `resource_lock`.
use ferrite_mcp.Prelude.{
  ℕ, suc, ◌<◌, ◌≡◌, ◌≢◌, ◌⊎◌, Bool, true, false, ◌&&◌, ◌||◌, List, [], ◌∷◌, ◌++◌, map, Text, codes,
  text_eq, ℕ_discrete,
}
use ferrite_mcp.Server.Keys.{sorted_resource_keys}
use mathlib.Core.Logic.{ite}

-- `ToolConcurrencyLane` and `ToolExecutionPolicy`
pub data Lane : Type 0 where
  parallel_read : Lane
  serialized_state : Lane
  serialized_resource : Lane

pub record ToolExecutionPolicy : Type 0 where
  pub lane : Lane
  pub resource_keys : List Text
  pub reason : Text

pub data Lock : Type 0 where
  state_lock : Lock
  resource_lock : (key : Text) → Lock

-- A `read_rwlock` or a `write_rwlock` call on a lock.
pub record Request : Type 0 where
  pub lock : Lock
  pub writes : Bool

unfoldable pub same_lock : Lock → Lock → Bool
same_lock state_lock state_lock = true
same_lock (resource_lock k) (resource_lock j) = text_eq k j
same_lock _ _ = false

-- what an `RwLock` keeps apart: two holders of one lock, one of them a writer
unfoldable pub conflict : Request → Request → Bool
conflict r s = same_lock r.lock s.lock && (r.writes || s.writes)

unfoldable pub read_key : Text → Request
read_key k = record { lock = resource_lock k; writes = false }

unfoldable pub write_key : Text → Request
write_key k = record { lock = resource_lock k; writes = true }

-- the keys that the lane of serialized resources locks
unfoldable pub or_unknown : List Text → List Text
or_unknown [] = codes "resource:unknown" ∷ []
or_unknown (k ∷ ks) = k ∷ ks

-- The locks that `run` takes, in the order in which it takes them; `f` runs when all of them are held.
unfoldable pub plan : Lane → List Text → List Request
plan parallel_read keys =
    record { lock = state_lock; writes = false } ∷ map read_key (sorted_resource_keys keys)
plan serialized_state keys = record { lock = state_lock; writes = true } ∷ []
plan serialized_resource keys =
    record { lock = state_lock; writes = false }
    ∷ map write_key (or_unknown (sorted_resource_keys keys))

-- A thread in `run`: the locks it holds, oldest first, and those it still has to take. With none left
-- it runs `f`; then the guards drop.
pub data Thread : Type 0 where
  working : (policy : ToolExecutionPolicy) (held todo : List Request) → Thread
  finished : Thread

-- The threads `0 … count - 1`.
pub record System : Type 0 where
  pub count : ℕ
  pub thread : ℕ → Thread

abbrev pub update : (ℕ → Thread) → ℕ → Thread → ℕ → Thread
update f i t j = ite (ℕ_discrete i j) t (f j)

abbrev pub In : Request → List Request → Type 0
In r [] = ⊥
In r (s ∷ rs) = (r ≡ s) ⊎ In r rs

abbrev pub held_by : Thread → List Request
held_by (working p held todo) = held
held_by finished = []

-- no other thread holds a lock that keeps `r` waiting
abbrev pub Free : System → ℕ → Request → Type 0
Free s i r =
    (j : ℕ)
    → j < s.count
    → i ≢ j
    → (q : Request) → In q (held_by (s.thread j))
    → conflict r q ≡ false

-- A tool call comes in on a thread of its own; a thread takes its next lock, which has to be free; a
-- thread that holds all its locks returns and releases them.
pub data Step : System → System → Type 0 where
  arrive :
      {s : System} (p : ToolExecutionPolicy)
      → Step s (record {
        count = suc s.count;
        thread = update s.thread s.count (working p [] (plan p.lane p.resource_keys));
      })
  acquire :
      {s : System} (i : ℕ) (p : ToolExecutionPolicy) (held todo : List Request) (r : Request)
      → i < s.count
      → s.thread i ≡ working p held (r ∷ todo)
      → Free s i r
      → Step s
          (record { count = s.count; thread = update s.thread i (working p (held ++ r ∷ []) todo) })
  return :
      {s : System} (i : ℕ) (p : ToolExecutionPolicy) (held : List Request)
      → i < s.count
      → s.thread i ≡ working p held []
      → Step s (record { count = s.count; thread = update s.thread i finished })

abbrev pub init : System
init = record { count = 0; thread = λ _. finished }

pub data Reach : System → Type 0 where
  start : Reach init
  later : {s t : System} → Reach s → Step s t → Reach t

-- ===== src/Server/Order.antt =====
-- The order of the locks: each lane takes them in increasing order.
use ferrite_mcp.Prelude.{
  ap, ◌≡◌, refl, inl, inr, Bool, true, false, List, [], ◌∷◌, ◌++◌, map, Text, text_eq_iff,
}
use ferrite_mcp.Server.Keys.{
  text_ltb, text_ltb_irrefl, text_ltb_trans, BelowAll, Increasing, sorted_resource_keys-Increasing,
}
use ferrite_mcp.Server.Scheduler.{
  Lane, parallel_read, serialized_state, serialized_resource, Lock, state_lock, resource_lock,
  Request, same_lock, read_key, write_key, or_unknown, plan, In,
}

-- the order in which `run` takes locks
unfoldable pub lock_ltb : Lock → Lock → Bool
lock_ltb state_lock state_lock = false
lock_ltb state_lock (resource_lock k) = true
lock_ltb (resource_lock k) state_lock = false
lock_ltb (resource_lock k) (resource_lock j) = text_ltb k j

pub lock_ltb_irrefl : (l : Lock) → lock_ltb l l ≡ false
unfolding lock_ltb
lock_ltb_irrefl state_lock = refl
lock_ltb_irrefl (resource_lock k) = text_ltb_irrefl k

pub lock_ltb_trans :
    (l m o : Lock) → lock_ltb l m ≡ true → lock_ltb m o ≡ true → lock_ltb l o ≡ true
unfolding lock_ltb
lock_ltb_trans state_lock state_lock o h k = k
lock_ltb_trans state_lock (resource_lock b) state_lock h k = k
lock_ltb_trans state_lock (resource_lock b) (resource_lock c) h k = refl
lock_ltb_trans (resource_lock a) state_lock o h k = absurd cc
lock_ltb_trans (resource_lock a) (resource_lock b) state_lock h k = k
lock_ltb_trans (resource_lock a) (resource_lock b) (resource_lock c) h k = text_ltb_trans a b c h k

pub same_lock_iff : (l m : Lock) → same_lock l m ≡ true → l ≡ m
unfolding same_lock
same_lock_iff state_lock state_lock h = refl
same_lock_iff state_lock (resource_lock k) h = absurd cc
same_lock_iff (resource_lock k) state_lock h = absurd cc
same_lock_iff (resource_lock k) (resource_lock j) h = ap resource_lock ((text_eq_iff k j).0 h)

abbrev pub Before : Request → List Request → Type 0
Before r rs = (q : Request) → In q rs → lock_ltb r.lock q.lock ≡ true

abbrev pub Ordered : List Request → Type 0
Ordered [] = Unit
Ordered (r ∷ rs) = Before r rs × Ordered rs

Before-map :
    (f : Text → Request)
    → ((k : Text) → (f k).lock ≡ resource_lock k)
    → (k : Text) (ks : List Text) → BelowAll k ks
    → Before (f k) (map f ks)
Before-map f key k [] b q m = absurd m
Before-map f key k (j ∷ ks) b q (inl e) = rw e (rw (key k) (rw (key j) (unfold lock_ltb in b.0)))
Before-map f key k (j ∷ ks) b q (inr m) = Before-map f key k ks b.1 q m

Ordered-map :
    (f : Text → Request)
    → ((k : Text) → (f k).lock ≡ resource_lock k)
    → (ks : List Text) → Increasing ks
    → Ordered (map f ks)
Ordered-map f key [] i = tt
Ordered-map f key (k ∷ ks) i = (Before-map f key k ks i.0, Ordered-map f key ks i.1)

state_first :
    (w : Bool) (f : Text → Request)
    → ((k : Text) → (f k).lock ≡ resource_lock k)
    → (ks : List Text) → Before (record { lock = state_lock; writes = w }) (map f ks)
state_first w f key [] q m = absurd m
state_first w f key (k ∷ ks) q (inl e) = rw e (rw (key k) (unfold lock_ltb in refl))
state_first w f key (k ∷ ks) q (inr m) = state_first w f key ks q m

or_unknown-Increasing : (ks : List Text) → Increasing ks → Increasing (or_unknown ks)
unfolding or_unknown
or_unknown-Increasing [] i = (tt, tt)
or_unknown-Increasing (k ∷ ks) i = i

-- every lane takes its locks in the one order
pub plan-Ordered : (l : Lane) (ks : List Text) → Ordered (plan l ks)
unfolding plan read_key write_key
plan-Ordered parallel_read ks = (
  state_first false read_key (λ _. refl) _,
  Ordered-map read_key (λ _. refl) _ (sorted_resource_keys-Increasing ks),
)
plan-Ordered serialized_state ks = ((λ q m. absurd m), tt)
plan-Ordered serialized_resource ks = (
  state_first false write_key (λ _. refl) _,
  Ordered-map write_key (λ _. refl) _
      (or_unknown-Increasing _ (sorted_resource_keys-Increasing ks)),
)

-- what is held comes before what is taken next
pub Ordered-held :
    (held todo : List Request) (r q : Request)
    → Ordered (held ++ r ∷ todo)
    → In q held
    → lock_ltb q.lock r.lock ≡ true
Ordered-held [] todo r q o m = absurd m
Ordered-held (x ∷ held) todo r q o (inl e) = rw e (o.0 r (In-middle held))
  where
    In-middle : (rs : List Request) → In r (rs ++ r ∷ todo)
    In-middle [] = inl refl
    In-middle (y ∷ rs) = inr (In-middle rs)
Ordered-held (x ∷ held) todo r q o (inr m) = Ordered-held held todo r q o.1 m

-- ===== src/Server/Exclusion.antt =====
-- Safety of the scheduler: what two tool calls that run together never share.
use ferrite_mcp.Prelude.{
  ℕ, ◌<◌, sym, ap, ◌∙◌, subst, ◌≡◌, ◌≢◌, refl, inl, inr, Bool, true, false, List, [], ◌∷◌, map,
  append-nil, arith, Bool-cases, Text, text_eq, text_eq_iff, text_eq_refl, elem,
}
use ferrite_mcp.Server.Keys.{sorted_resource_keys, elem-sorted_resource_keys}
use ferrite_mcp.Server.Scheduler.{
  Lane, parallel_read, serialized_state, serialized_resource, ToolExecutionPolicy, state_lock,
  Request, same_lock, conflict, read_key, write_key, or_unknown, plan, working, System, In, Reach,
}
use ferrite_mcp.Server.Invariant.{Apart, Planned, Inv, Reach-Inv}

-- the keys that a policy names, `resource:unknown` in place of none where the lane writes
unfoldable pub keys_of : Lane → List Text → List Text
keys_of parallel_read keys = keys
keys_of serialized_state keys = []
keys_of serialized_resource keys = or_unknown keys

-- Two calls that must not run together: one has the server's state for itself, or one writes a resource
-- that the other names.
pub data Exclusive (p q : ToolExecutionPolicy) : Type 0 where
  alone : p.lane ≡ serialized_state → Exclusive p q
  shared :
      (k : Text)
      → p.lane ≡ serialized_resource
      → elem k (keys_of p.lane p.resource_keys) ≡ true
      → elem k (keys_of q.lane q.resource_keys) ≡ true
      → Exclusive p q

In-map : (f : Text → Request) (k : Text) (ks : List Text) → elem k ks ≡ true → In (f k) (map f ks)
unfolding elem
In-map f k [] h = absurd cc
In-map f k (j ∷ ks) h = elim (Bool-cases (text_eq k j)) [
  | inl same ↦ inl (ap f ((text_eq_iff k j).0 same))
  | inr other ↦ inr (In-map f k ks (grind arith))
]

elem-or_unknown :
    (k : Text) (ks js : List Text)
    → ((t : Text) → elem t ks ≡ elem t js)
    → elem k (or_unknown ks) ≡ elem k (or_unknown js)
unfolding elem or_unknown
elem-or_unknown k [] [] same = refl
elem-or_unknown k [] (j ∷ js) same = absurd (grind (arith, same j, text_eq_refl j))
elem-or_unknown k (j ∷ ks) [] same = absurd (grind (arith, same j, text_eq_refl j))
elem-or_unknown k (i ∷ ks) (j ∷ js) same = same k

-- every call takes the state lock
plan-state :
    (l : Lane) (ks : List Text)
    → (w : Bool) × In (record { lock = state_lock; writes = w }) (plan l ks)
unfolding plan
plan-state parallel_read ks = (false, inl refl)
plan-state serialized_state ks = (true, inl refl)
plan-state serialized_resource ks = (false, inl refl)

plan-writes :
    (k : Text) (ks : List Text)
    → elem k (or_unknown ks) ≡ true
    → In (write_key k) (plan serialized_resource ks)
unfolding plan
plan-writes k ks h = inr (
    In-map write_key k _
      (elem-or_unknown k (sorted_resource_keys ks) ks (λ t. elem-sorted_resource_keys t ks) ∙ h))

plan-reads :
    (k : Text) (ks : List Text) → elem k ks ≡ true → In (read_key k) (plan parallel_read ks)
unfolding plan
plan-reads k ks h = inr (In-map read_key k _ (elem-sorted_resource_keys k ks ∙ h))

-- plans of which no request conflicts with one of the other
Disjoint : List Request → List Request → Type 0
Disjoint rs qs = (r q : Request) → In r rs → In q qs → conflict r q ≡ false

Disjoint-alone :
    (l : Lane) (ks js : List Text) → Disjoint (plan serialized_state ks) (plan l js) → ⊥
unfolding Disjoint plan conflict same_lock
Disjoint-alone l ks js apart = true_false (apart _ _ (inl refl) (plan-state l js).1)
  where
    true_false : true ≡ false → ⊥
    true_false e = cc

Disjoint-shared :
    (l : Lane) (k : Text) (ks js : List Text)
    → elem k (or_unknown ks) ≡ true
    → elem k (keys_of l js) ≡ true
    → Disjoint (plan serialized_resource ks) (plan l js)
    → ⊥
unfolding Disjoint keys_of elem conflict same_lock read_key write_key
Disjoint-shared parallel_read k ks js h g apart =
    absurd (grind (arith, apart _ _ (plan-writes k ks h) (plan-reads k js g), text_eq_refl k))
Disjoint-shared serialized_state k ks js h g apart = absurd cc
Disjoint-shared serialized_resource k ks js h g apart =
    absurd (grind (arith, apart _ _ (plan-writes k ks h) (plan-writes k js g), text_eq_refl k))

Disjoint-Exclusive :
    (p q : ToolExecutionPolicy)
    → Disjoint (plan p.lane p.resource_keys) (plan q.lane q.resource_keys)
    → Exclusive p q
    → ⊥
unfolding keys_of
Disjoint-Exclusive p q apart (alone e) =
    Disjoint-alone q.lane p.resource_keys q.resource_keys
      (subst (λ l. Disjoint (plan l p.resource_keys) (plan q.lane q.resource_keys)) e apart)
Disjoint-Exclusive p q apart (shared k e h g) =
    Disjoint-shared q.lane k p.resource_keys q.resource_keys
      (subst (λ l. elem k (keys_of l p.resource_keys) ≡ true) e h) g
      (subst (λ l. Disjoint (plan l p.resource_keys) (plan q.lane q.resource_keys)) e apart)

-- In every reachable state, of two threads that both run their tools, neither has the lane of serialized
-- state, and neither writes a resource key that the other names.
pub Reach-Exclusive :
    {s : System}
    → Reach s
    → (i j : ℕ) (p q : ToolExecutionPolicy) (held held' : List Request) → i < s.count
    → j < s.count
    → i ≢ j
    → s.thread i ≡ working p held []
    → s.thread j ≡ working q held' []
    → ¬ Exclusive p q
unfolding Disjoint
Reach-Exclusive {s} r i j p q held held' in_i in_j ne run_i run_j =
    Disjoint-Exclusive p q (λ x y in_x in_y.
      running_apart x y (subst (In x) (sym (held_all i p held run_i)) in_x)
        (subst (In y) (sym (held_all j q held' run_j)) in_y))
  where
    inv : Inv s
    inv = Reach-Inv r

    held_all :
        (k : ℕ) (o : ToolExecutionPolicy) (rs : List Request)
        → s.thread k ≡ working o rs []
        → rs ≡ plan o.lane o.resource_keys
    held_all k o rs e = sym (append-nil rs) ∙ subst Planned e (inv.planned k)

    running_apart : Apart (working p held []) (working q held' [])
    running_apart =
        subst (Apart (working p held [])) run_j
          (subst (λ t. Apart t (s.thread j)) run_i (inv.apart i j in_i in_j ne))

-- ===== src/Server/Invariant.antt =====
-- The invariant of the scheduler: each thread follows its plan, and no two hold locks that conflict.
use ferrite_mcp.Prelude.{
  ℕ, ◌<◌, sym, ◌∙◌, subst, ◌≡◌, ◌≢◌, refl, ◌⊎◌, inl, inr, false, List, [], ◌∷◌, ◌++◌, append_assoc,
  arith, Text, text_eq, ℕ_discrete,
}
use mathlib.Core.Logic.{ite}
use ferrite_mcp.Server.Scheduler.{
  ToolExecutionPolicy, Lock, state_lock, resource_lock, Request, same_lock, conflict, plan, Thread,
  working, finished, System, update, In, held_by, Step, arrive, acquire, return, Reach, start,
  later,
}

pub text_eq_comm : (s t : Text) → text_eq s t ≡ text_eq t s
unfolding text_eq
text_eq_comm [] [] = refl
text_eq_comm [] (y ∷ t) = refl
text_eq_comm (x ∷ s) [] = refl
text_eq_comm (x ∷ s) (y ∷ t) = ground (arith, text_eq_comm s t)

same_lock_comm : (l m : Lock) → same_lock l m ≡ same_lock m l
unfolding same_lock
same_lock_comm state_lock state_lock = refl
same_lock_comm state_lock (resource_lock j) = refl
same_lock_comm (resource_lock k) state_lock = refl
same_lock_comm (resource_lock k) (resource_lock j) = text_eq_comm k j

conflict_comm : (r q : Request) → conflict r q ≡ conflict q r
unfolding conflict
conflict_comm r q = grind (arith, same_lock_comm r.lock q.lock)

abbrev pub Apart : Thread → Thread → Type 0
Apart t u = (r q : Request) → In r (held_by t) → In q (held_by u) → conflict r q ≡ false

Apart-comm : (t u : Thread) → Apart t u → Apart u t
Apart-comm t u a r q in_u in_t = conflict_comm r q ∙ a q r in_t in_u

abbrev pub Planned : Thread → Type 0
Planned (working p held todo) = held ++ todo ≡ plan p.lane p.resource_keys
Planned finished = Unit

-- a family with one thread replaced: what holds of the new one and of the others holds of each
pub update-elim {ℓ} :
    (P : Thread → Type ℓ) (f : ℕ → Thread) (i : ℕ) (t : Thread) (j : ℕ)
    → P t
    → ((i ≢ j) → P (f j))
    → P (update f i t j)
update-elim P f i t j new old = elim (ℕ_discrete i j) as (λ d. P (ite d t (f j))) [
  | yes same ↦ new
  | no other ↦ old other
]

update-Apart :
    (f : ℕ → Thread) (i : ℕ) (t : Thread) (a b : ℕ)
    → a ≢ b
    → (i ≢ a → i ≢ b → Apart (f a) (f b))
    → ((c : ℕ) → i ≢ c → (c ≡ a) ⊎ (c ≡ b) → Apart t (f c))
    → Apart (update f i t a) (update f i t b)
update-Apart f i t a b ne old new =
    elim (ℕ_discrete i a) as (λ d. Apart (ite d t (f a)) (update f i t b)) [
      | yes is_a ↦ elim (ℕ_discrete i b) as (λ d. Apart t (ite d t (f b))) [
        | yes is_b ↦ absurd (ne (sym is_a ∙ is_b))
        | no not_b ↦ new b not_b (inr refl)
      ]
      | no not_a ↦ elim (ℕ_discrete i b) as (λ d. Apart (f a) (ite d t (f b))) [
        | yes is_b ↦ Apart-comm t (f a) (new a not_a (inl refl))
        | no not_b ↦ old not_a not_b
      ]
    ]

-- Each thread holds a prefix of its plan, and no two threads hold locks that conflict.
pub record Inv (s : System) : Type 0 where
  pub planned : (i : ℕ) → Planned (s.thread i)
  pub apart : (i j : ℕ) → i < s.count → j < s.count → i ≢ j → Apart (s.thread i) (s.thread j)

In-append_one : (q r : Request) (rs : List Request) → In q (rs ++ r ∷ []) → In q rs ⊎ (q ≡ r)
In-append_one q r [] (inl e) = inr e
In-append_one q r [] (inr e) = absurd e
In-append_one q r (s ∷ rs) (inl e) = inl (inl e)
In-append_one q r (s ∷ rs) (inr m) = elim (In-append_one q r rs m) [
  | inl there ↦ inl (inr there)
  | inr e ↦ inr e
]

acquire-Apart :
    (p : ToolExecutionPolicy) (held todo : List Request) (r : Request) (u : Thread)
    → Apart (working p held (r ∷ todo)) u
    → ((q : Request) → In q (held_by u) → conflict r q ≡ false)
    → Apart (working p (held ++ r ∷ []) todo) u
acquire-Apart p held todo r u a free x q in_t in_u = elim (In-append_one x r held in_t) [
  | inl old ↦ a x q old in_u
  | inr new ↦ rw new (free q in_u)
]

pub Step-Inv : {s t : System} → Step s t → Inv s → Inv t
Step-Inv {s} (arrive p) inv = record {
  planned = λ j. update-elim Planned s.thread s.count _ j refl (λ _. inv.planned j);
  apart = λ a b in_a in_b ne.
      update-Apart s.thread s.count _ a b ne
        (λ not_a not_b. inv.apart a b (omega (arith, not_a)) (omega (arith, not_b)) ne)
        (λ c ne' h r q in_t. absurd in_t);
}
Step-Inv {s} (acquire i p held todo r lt e free) inv = record {
  planned = λ j.
      update-elim Planned s.thread i _ j
        (append_assoc held (r ∷ []) todo ∙ subst Planned e (inv.planned i)) (λ _. inv.planned j);
  apart = λ a b in_a in_b ne.
      update-Apart s.thread i _ a b ne (λ not_a not_b. inv.apart a b in_a in_b ne)
        (λ c ne' h.
          let in_c = below h in_a in_b in
          acquire-Apart p held todo r (s.thread c)
            (subst (λ t. Apart t (s.thread c)) e (inv.apart i c lt in_c ne')) (free c in_c ne'));
}
  where
    below : {a b c n : ℕ} → (c ≡ a) ⊎ (c ≡ b) → a < n → b < n → c < n
    below (inl e) h k = omega arith
    below (inr e) h k = omega arith
Step-Inv {s} (return i p held lt e) inv = record {
  planned = λ j. update-elim Planned s.thread i finished j tt (λ _. inv.planned j);
  apart = λ a b in_a in_b ne.
      update-Apart s.thread i finished a b ne (λ not_a not_b. inv.apart a b in_a in_b ne)
        (λ c ne' h r q in_t. absurd in_t);
}

pub Reach-Inv : {s : System} → Reach s → Inv s
Reach-Inv start = record { planned = λ _. tt; apart = λ i j h _ _. absurd (omega arith) }
Reach-Inv (later r st) = Step-Inv st (Reach-Inv r)

-- ===== src/JobStore/Drains.antt =====
-- What the readers of a job's output get over time.
use ferrite_mcp.Prelude.{
  ℕ, zero, suc, ◌≤◌, ◌≡◌, refl, sym, ap, ◌∙◌, false, Option, none, some, List, [], ◌∷◌, ◌++◌,
  append-nil, append_assoc, ltb, length, length-append, drop, arith,
}
use ferrite_mcp.Edit.Content.{Bytes}
use ferrite_mcp.JobStore.{Buffer, extend, drain_new}

-- Output that comes from the process, or a call that drains.
pub data BufferEvent : Type 0 where
  arrives : Bytes → BufferEvent
  drains : BufferEvent

abbrev then_drained : Bytes → Option (Bytes × Buffer) → Option (Bytes × Buffer)
then_drained out none = none
then_drained out (some (more, b)) = some (out ++ more, b)

-- the bytes that the drains return, and the buffer behind them
unfoldable pub observe : List BufferEvent → Buffer → Option (Bytes × Buffer)
unfolding extend drain_new
observe [] b = some ([], b)
observe (arrives chunk ∷ es) b = observe es (extend chunk b)
observe (drains ∷ es) b = elim (drain_new b) [
  | none ↦ none
  | some (out, next) ↦ then_drained out (observe es next)
]

unfoldable pub arrived : List BufferEvent → Bytes
arrived [] = []
arrived (arrives chunk ∷ es) = chunk ++ arrived es
arrived (drains ∷ es) = arrived es

drop-append : (n : ℕ) (xs ys : Bytes) → n ≤ length xs → drop n (xs ++ ys) ≡ drop n xs ++ ys
drop-append zero xs ys h = refl
drop-append (suc n) [] ys h = absurd (omega (arith, h))
drop-append (suc n) (x ∷ xs) ys h = drop-append n xs ys (omega (arith, h))

drop-length : (xs : Bytes) → drop (length xs) xs ≡ []
drop-length [] = refl
drop-length (x ∷ xs) = drop-length xs

drain_new_lem :
    (b : Buffer)
    → b.cursor ≤ length b.buf
    → drain_new b ≡ some (drop b.cursor b.buf, record { buf = b.buf; cursor = length b.buf })
unfolding drain_new
drain_new_lem b h = rw not_behind refl
  where
    not_behind : ltb (length b.buf) b.cursor ≡ false
    not_behind = ground (arith, h)

-- From a buffer whose cursor is inside of it, no drain panics, the cursor stays inside, and the bytes drained
-- together with those not drained yet are those that were not drained before and those that have arrived
-- since, in order: none is lost, repeated or swapped.
pub observe-arrived :
    (es : List BufferEvent) (b : Buffer)
    → b.cursor ≤ length b.buf
    → (out : Bytes) × (next : Buffer) × (observe es b ≡ some (out, next))
      × (next.cursor ≤ length next.buf)
      × (out ++ drop next.cursor next.buf ≡ drop b.cursor b.buf ++ arrived es)
unfolding observe arrived extend drain_new
observe-arrived [] b h = ([], b, refl, h, sym (append-nil (drop b.cursor b.buf)))
observe-arrived (arrives chunk ∷ es) b h =
    let (out, next, runs, fits, same) =
      observe-arrived es (extend chunk b) (omega (arith, length-append b.buf chunk)) in
    (
      out,
      next,
      runs,
      fits,
      same
          ∙ (ap (λ t. t ++ arrived es) (drop-append b.cursor b.buf chunk h)
              ∙ append_assoc (drop b.cursor b.buf) chunk (arrived es)),
    )
observe-arrived (drains ∷ es) b h =
    let (out, next, runs, fits, same) =
      observe-arrived es (record { buf = b.buf; cursor = length b.buf }) (omega arith) in
    (
      drop b.cursor b.buf ++ out,
      next,
      ap
            (λ r. elim r as (λ _. Option (Bytes × Buffer)) [
              | none ↦ none
              | some (o, n) ↦ then_drained o (observe es n)
            ])
            (drain_new_lem b h)
          ∙ ap (then_drained (drop b.cursor b.buf)) runs,
      fits,
      append_assoc (drop b.cursor b.buf) out (drop next.cursor next.buf)
          ∙ ap (λ t. drop b.cursor b.buf ++ t)
              (same ∙ ap (λ t. t ++ arrived es) (drop-length b.buf)),
    )

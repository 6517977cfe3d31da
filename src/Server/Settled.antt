-- ===== src/Server/Settled.antt =====
-- What a run of the event loop comes to.
use ferrite_mcp.Prelude.{
  ℕ, zero, suc, ◌+◌, ◌≡◌, refl, ap, sym, subst, Bool-cases, Bool, true, false, ◌⊎◌, inl, inr,
  Option, none, some, List, [], ◌∷◌, length, if◌then◌else◌, arith,
}
use ferrite_mcp.Server.Loop.{
  RunEvent, blank_input, notification, request, bad_input, response, input_closed, reader_error,
  Event, Output, parse_error, answer, Loop, Outcome, going, returned, failed, waiting,
  recycle_check, write_line, handle_event, runs, run_loop,
}

-- The number of responses among the lines written.
abbrev pub answers : List Output → ℕ
answers [] = 0
answers (parse_error ∷ os) = answers os
answers (answer id ∷ os) = suc (answers os)

-- The requests outstanding after an event; a response comes only while one is.
abbrev pub supply : RunEvent → ℕ → Option ℕ
supply (request id) n = some (suc n)
supply (response id) zero = none
supply (response id) (suc n) = some n
supply _ n = some n

abbrev pub Supplied : ℕ → List Event → Type 0
Supplied n [] = Unit
Supplied n (e ∷ es) = elim (supply e.event n) [ none ↦ ⊥ | some m ↦ Supplied m es ]

abbrev pub Recycled : List Event → Type 0
Recycled [] = ⊥
Recycled (e ∷ es) = (e.recycle ≡ true) ⊎ Recycled es

abbrev pub Balanced : Loop → Type 0
Balanced l = answers l.written + l.in_flight ≡ length l.spawned

-- what one event leaves: with `m` requests outstanding where the loop goes on
abbrev Sound : ℕ → Bool → Outcome → Type 0
Sound m recycle (going l) = Balanced l × (l.in_flight ≡ m)
Sound m recycle (returned l) = Balanced l × (recycle ≡ true)
Sound m recycle (failed l) = Unit
Sound m recycle (waiting l) = ⊥

recycle_check-Sound : (b : Bool) (l : Loop) → Balanced l → Sound l.in_flight b (recycle_check b l)
unfolding recycle_check
recycle_check-Sound true l h = (h, refl)
recycle_check-Sound false l h = (h, refl)

write_line-Sound :
    (ok b : Bool) (ev : RunEvent) (o : Output) (l : Loop)
    → answers (o ∷ l.written) + l.in_flight ≡ length l.spawned
    → Sound l.in_flight b (write_line (record { event = ev; write_ok = ok; recycle = b }) o l)
unfolding write_line
write_line-Sound true b ev o l h = recycle_check-Sound b _ h
write_line-Sound false b ev o l h = tt

some_inj : {n m : ℕ} → some n ≡ some m → n ≡ m
some_inj e = cc

Sound-at : {n m : ℕ} (b : Bool) (o : Outcome) → n ≡ m → Sound n b o → Sound m b o
Sound-at b o e h = subst (λ k. Sound k b o) e h

supply_response : (id n m : ℕ) → supply (response id) n ≡ some m → n ≡ suc m
supply_response id zero m e = cc
supply_response id (suc n) m e = ap suc (some_inj e)

handle_event-Sound :
    (ev : RunEvent) (ok b : Bool) (l : Loop) (m : ℕ)
    → Balanced l
    → supply ev l.in_flight ≡ some m
    → Sound m b (handle_event (record { event = ev; write_ok = ok; recycle = b }) l)
unfolding handle_event
handle_event-Sound blank_input ok b l m h e = (h, some_inj e)
handle_event-Sound notification ok b l m h e = Sound-at b _ (some_inj e) (recycle_check-Sound b l h)
handle_event-Sound (request id) ok b l m h e =
    Sound-at b _ (some_inj e) (recycle_check-Sound b _ (omega (arith, h)))
handle_event-Sound bad_input ok b l m h e =
    Sound-at b _ (some_inj e) (write_line-Sound ok b bad_input parse_error l h)
handle_event-Sound (response id) ok b l m h e =
    let more = supply_response id l.in_flight m e in
    Sound-at b _ (omega (arith, more))
      (write_line-Sound ok b (response id) (answer id) _ (omega (arith, h, more)))
handle_event-Sound input_closed ok b l m h e = Sound-at b _ (some_inj e) (recycle_check-Sound b _ h)
handle_event-Sound reader_error ok b l m h e = tt

-- What a run comes to: where it returns, the lines written and the requests in flight make up the requests
-- spawned, and none is in flight unless an event asked to recycle.
abbrev pub Settled : List Event → Outcome → Type 0
Settled es (going l) = ⊥
Settled es (returned l) = Balanced l × ((l.in_flight ≡ 0) ⊎ Recycled es)
Settled es (failed l) = Unit
Settled es (waiting l) = Balanced l

runs-false : (l : Loop) → runs l ≡ false → l.in_flight ≡ 0
unfolding runs
runs-false l h = ground arith

-- one round of the loop
next_round : Outcome → List Event → Outcome
next_round (going m) es = run_loop m es
next_round o es = o

run_loop-step :
    (l : Loop) (e : Event) (es : List Event)
    → run_loop l (e ∷ es) ≡ (if runs l then next_round (handle_event e l) es else returned l)
unfolding run_loop next_round
run_loop-step l e es =
    elim (handle_event e l)
      as (λ o.
        (if runs l
          then elim o as (λ _. Outcome) [
            | going m ↦ run_loop m es
            | returned m ↦ returned m
            | failed m ↦ failed m
            | waiting m ↦ waiting m
          ]
          else returned l)
        ≡ (if runs l then next_round o es else returned l)) [
          | going m ↦ refl
          | returned m ↦ refl
          | failed m ↦ refl
          | waiting m ↦ refl
        ]

Settled-later : (e : Event) (es : List Event) (o : Outcome) → Settled es o → Settled (e ∷ es) o
Settled-later e es (going l) h = h
Settled-later e es (returned l) (h, inl idle) = (h, inl idle)
Settled-later e es (returned l) (h, inr asked) = (h, inr (inr asked))
Settled-later e es (failed l) h = h
Settled-later e es (waiting l) h = h

next_round-Settled :
    (e : Event) (es : List Event) (m : ℕ) (o : Outcome)
    → Sound m e.recycle o
    → Supplied m es
    → ((k : Loop) → Balanced k → Supplied k.in_flight es → Settled es (run_loop k es))
    → Settled (e ∷ es) (next_round o es)
unfolding next_round
next_round-Settled e es m (going k) h later rest =
    Settled-later e es (run_loop k es) (rest k h.0 (subst (λ n. Supplied n es) (sym h.1) later))
next_round-Settled e es m (returned k) h later rest = (h.0, inr (inl h.1))
next_round-Settled e es m (failed k) h later rest = tt
next_round-Settled e es m (waiting k) h later rest = absurd h

Supplied-next :
    (o : Option ℕ) (es : List Event)
    → elim o as (λ _. Type 0) [ none ↦ ⊥ | some m ↦ Supplied m es ]
    → (m : ℕ) × (o ≡ some m) × Supplied m es
Supplied-next none es h = absurd h
Supplied-next (some m) es h = (m, refl, h)

-- On every sequence of events in which a response comes only while a request is outstanding: where the loop
-- returns, the responses written and the requests in flight are as many as the requests spawned, and none is
-- in flight unless an event of the sequence asked to recycle. Where it waits, they are as many as well.
pub run_loop-Settled :
    (l : Loop) (es : List Event) → Balanced l → Supplied l.in_flight es → Settled es (run_loop l es)
unfolding run_loop
run_loop-Settled l [] h s = elim (Bool-cases (runs l)) [
  | inl on ↦ rw (on, run_loop) h
  | inr off ↦ rw (off, run_loop) (h, inl (runs-false l off))
]
run_loop-Settled l (e ∷ es) h s =
    let (m, outstanding, later) = Supplied-next (supply e.event l.in_flight) es s in
    subst (Settled (e ∷ es)) (sym (run_loop-step l e es)) (elim (Bool-cases (runs l)) [
      | inl on ↦ rw on (
          next_round-Settled e es m (handle_event e l)
            (handle_event-Sound e.event e.write_ok e.recycle l m h outstanding) later
            (λ k. run_loop-Settled k es))
      | inr off ↦ rw off (h, inl (runs-false l off))
    ])

-- ===== src/Server/Loop.antt =====
-- `McpServer::run`: the event loop. What a line parses to, whether a write succeeds and whether the server
-- wants to recycle come from outside (serde_json, stdout, the environment) and stand in the event.
use ferrite_mcp.Prelude.{
  ℕ, suc, ◌-◌, Bool, true, false, ◌||◌, not, List, [], ◌∷◌, ltb, if◌then◌else◌,
}

-- `RunEvent`, an input line by what it is: blank, a notification, a request, or not a message.
pub data RunEvent : Type 0 where
  blank_input : RunEvent
  notification : RunEvent
  request : (id : ℕ) → RunEvent
  bad_input : RunEvent
  response : (id : ℕ) → RunEvent
  input_closed : RunEvent
  reader_error : RunEvent

pub record Event : Type 0 where
  pub event : RunEvent
  pub write_ok : Bool
  pub recycle : Bool

-- what the loop has written: a parse error, or the response to a request
pub data Output : Type 0 where
  parse_error : Output
  answer : (id : ℕ) → Output

-- the variables of the loop, the requests it has spawned and the lines it has written, newest first
pub record Loop : Type 0 where
  pub closed : Bool
  pub in_flight : ℕ
  pub spawned : List ℕ
  pub written : List Output

pub data Outcome : Type 0 where
  going : Loop → Outcome
  returned : Loop → Outcome
  failed : Loop → Outcome
  waiting : Loop → Outcome

abbrev pub start : Loop
start = record { closed = false; in_flight = 0; spawned = []; written = [] }

-- the check at the end of the loop's body; a `continue` goes round it
unfoldable pub recycle_check : Bool → Loop → Outcome
recycle_check recycle l = if recycle then returned l else going l

unfoldable pub write_line : Event → Output → Loop → Outcome
unfolding recycle_check
write_line e o l =
    if e.write_ok
    then recycle_check e.recycle (record {
      closed = l.closed;
      in_flight = l.in_flight;
      spawned = l.spawned;
      written = o ∷ l.written;
    })
    else failed l

unfoldable pub handle_event : Event → Loop → Outcome
unfolding write_line recycle_check
handle_event e l = elim e.event [
  | blank_input ↦ going l
  | notification ↦ recycle_check e.recycle l
  | request id ↦ recycle_check e.recycle (record {
    closed = l.closed;
    in_flight = suc l.in_flight;
    spawned = id ∷ l.spawned;
    written = l.written;
  })
  | bad_input ↦ write_line e parse_error l
  | response id ↦ write_line e (answer id) (record {
    closed = l.closed;
    in_flight = l.in_flight - 1;
    spawned = l.spawned;
    written = l.written;
  })
  | input_closed ↦
      recycle_check e.recycle (record {
        closed = true;
        in_flight = l.in_flight;
        spawned = l.spawned;
        written = l.written;
      })
  | reader_error ↦ failed l
]

-- `while !input_closed || in_flight > 0`
unfoldable pub runs : Loop → Bool
runs l = not l.closed || ltb 0 l.in_flight

-- The loop on the events that arrive; when they run out before it ends, `recv` waits.
unfoldable pub run_loop : Loop → List Event → Outcome
unfolding handle_event runs
run_loop l [] = if runs l then waiting l else returned l
run_loop l (e ∷ es) =
    let next = elim (handle_event e l) as (λ _. Outcome) [
      | going m ↦ run_loop m es
      | returned m ↦ returned m
      | failed m ↦ failed m
      | waiting m ↦ waiting m
    ] in
    if runs l then next else returned l

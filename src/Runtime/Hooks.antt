-- ===== src/Runtime/Hooks.antt =====
-- crates/shell-hooks: events, and the registry that passes them through the hooks.
use ferrite_mcp.Prelude.{ℕ, ◌≡◌, refl, ap, List, [], ◌∷◌, ◌++◌, if◌then◌else◌, Text, text_eq}
use ferrite_mcp.Runtime.State.{ExitStatus}

pub data HookEvent : Type 0 where
  pre_exec : Text → HookEvent
  post_exec : Text → ExitStatus → HookEvent
  command_not_found : Text → HookEvent
  on_error : Text → HookEvent
  complete : Text → ℕ → List Text → HookEvent
  startup : HookEvent
  shutdown : ExitStatus → HookEvent

-- what `on_event` returns: `Ok(Some(event))`, `Ok(None)` or an error
pub data Reply : Type 0 where
  pass : HookEvent → Reply
  consume : Reply
  failed : Reply

-- An implementation of the trait `Hook`: its name, and its reply to each event, which may depend on its own
-- state and so on the events it has handled (newest first). Effects outside the shell are not modelled.
pub record Hook : Type 0 where
  pub name : Text
  pub reply : List HookEvent → HookEvent → Reply
  pub handled : List HookEvent

abbrev pub on_event : Hook → HookEvent → Reply
on_event h e = h.reply h.handled e

abbrev pub after : Hook → HookEvent → Hook
after h e = record { name = h.name; reply = h.reply; handled = e ∷ h.handled }

pub record HookRegistry : Type 0 where
  pub hooks : List Hook

unfoldable pub register : HookRegistry → Hook → HookRegistry
register r h = record { hooks = r.hooks ++ h ∷ [] }

-- `self.hooks.retain(|h| h.name() != name)`
unfoldable pub retain_other : Text → List Hook → List Hook
retain_other n [] = []
retain_other n (h ∷ hs) =
    let rest = retain_other n hs in if text_eq h.name n then rest else h ∷ rest

unfoldable pub deregister : HookRegistry → Text → HookRegistry
unfolding retain_other
deregister r n = record { hooks = retain_other n r.hooks }

-- The loop of `fire`: a consumed event or an error ends it, and the hooks behind are left alone.
unfoldable pub fire_loop : HookEvent → List Hook → List Hook
fire_loop e [] = []
fire_loop e (h ∷ hs) = elim (on_event h e) [
  | pass next ↦ after h e ∷ fire_loop next hs
  | consume ↦ after h e ∷ hs
  | failed ↦ after h e ∷ hs
]

unfoldable pub fire : HookRegistry → HookEvent → HookRegistry
unfolding fire_loop
fire r e = record { hooks = fire_loop e r.hooks }

-- `e` goes through `before`, which becomes `changed`, and comes out as `e'`.
pub data Passes : HookEvent → List Hook → List Hook → HookEvent → Type 0 where
  unchanged : {e : HookEvent} → Passes e [] [] e
  passed :
      {e e1 e2 : HookEvent} {h : Hook} {hs hs' : List Hook}
      → on_event h e ≡ pass e1
      → Passes e1 hs hs' e2
      → Passes e (h ∷ hs) (after h e ∷ hs') e2

-- Where the hooks before `h` pass the event on as `e'` and `h` does not pass `e'` on, consuming it
-- or failing, each of those hooks and `h` has handled it once and the hooks behind are as they were.
pub fire_loop-stops :
    {e e' : HookEvent} {before changed : List Hook} (h : Hook) (behind : List Hook)
    → Passes e before changed e'
    → ((next : HookEvent) → ¬ (on_event h e' ≡ pass next))
    → fire_loop e (before ++ h ∷ behind) ≡ changed ++ after h e' ∷ behind
unfolding fire_loop
fire_loop-stops {e} h behind unchanged stops = stopped (on_event h e) refl
  where
    stopped : (r : Reply) → on_event h e ≡ r → fire_loop e (h ∷ behind) ≡ after h e ∷ behind
    stopped (pass next) q = absurd (stops next q)
    stopped consume q = rw (q, fire_loop)
    stopped failed q = rw (q, fire_loop)
fire_loop-stops h behind (passed {e} {h = g} q rest) stops =
    rw (q, fire_loop) (ap (◌∷◌ (after g e)) (fire_loop-stops h behind rest stops))

-- ===== src/Ingress/Drainer.antt =====
-- The processor of src/apps/ingress/main.ts: the flags `draining` and `pending`, the timer, and the
-- callbacks that read them. Each callback runs to its end, or to its next `await`, as one step.
pub mod Service
use previewer.Prelude.{
  ℕ, ◌+◌, ◌-◌, ◌*◌, ◌≡◌, min, max, Bool, true, false, ◌⊎◌, inl, inr, Option, none, some, List, [],
  ◌∷◌, is_some, if◌then◌else◌,
}
use previewer.Core.Failure.{Thrown}

-- `timer` is the time at which the timer that is set fires.
pub record Drainer : Type 0 where
  pub draining : Bool
  pub pending : Bool
  pub timer : Option ℕ

-- What a step sets off: `drainQueue`, the look-up of `nextVisibleAt`, or nothing.
pub data Effect : Type 0 where
  drains looks_up nothing : Effect

abbrev pub max_wake_ms : ℕ
max_wake_ms = 30 * 60_000

abbrev pub idle : Drainer
idle = record { draining = false; pending = false; timer = none }

-- `kick`: a drain that runs already is told to go round again.
unfoldable pub kick : Drainer → Drainer × Effect
kick d =
    if d.draining
    then (record d { pending = true }, nothing)
    else (record d { draining = true; pending = false }, drains)

-- The drain returned: the loop's test, and the `finally` when it ends.
unfoldable pub drain_returned : Drainer → Drainer × Effect
drain_returned d =
    if d.pending
    then (record d { pending = false }, drains)
    else (record d { draining = false }, looks_up)

-- The drain threw: only the `finally` runs.
unfoldable pub drain_threw : Drainer → Drainer × Effect
drain_threw d = (record d { draining = false }, looks_up)

unfoldable pub wake_delay : ℕ → ℕ → ℕ
wake_delay now next = min (max 0 (next - now)) max_wake_ms

-- `scheduleWake` once `nextVisibleAt` answers: what it throws is only logged.
unfoldable pub schedule_wake : ℕ → Thrown ⊎ Option ℕ → Drainer → Drainer × Effect
unfolding wake_delay
schedule_wake now (inl err) d = (d, nothing)
schedule_wake now (inr none) d = (record d { timer = none }, nothing)
schedule_wake now (inr (some next)) d =
    (record d { timer = some (now + wake_delay now next) }, nothing)

-- The timer's callback.
unfoldable pub fire : Drainer → Drainer × Effect
unfolding kick
fire d = kick (record d { timer = none })

pub data Event : Type 0 where
  kicked returned_drain threw_drain fired : Event
  answered : ℕ → Thrown ⊎ Option ℕ → Event

unfoldable pub step : Drainer → Event → Drainer × Effect
unfolding kick drain_returned drain_threw schedule_wake fire
step d kicked = kick d
step d returned_drain = drain_returned d
step d threw_drain = drain_threw d
step d fired = fire d
step d (answered now next) = schedule_wake now next d

unfoldable pub run : Drainer → List Event → Drainer
unfolding step
run d [] = d
run d (e ∷ es) = run (step d e).0 es

-- The events that can happen: a drain ends only while one runs, and a timer fires only if it is set.
abbrev pub Possible : Drainer → Event → Type 0
Possible d returned_drain = d.draining ≡ true
Possible d threw_drain = d.draining ≡ true
Possible d fired = is_some d.timer ≡ true
Possible d _ = Unit {0}

abbrev pub AllPossible : Drainer → List Event → Type 0
AllPossible d [] = Unit {0}
AllPossible d (e ∷ es) = Possible d e × AllPossible (step d e).0 es

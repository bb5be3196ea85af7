-- ===== src/Ingress/Drainer/Service.antt =====
-- The drains that kicks and timers of the ingress start, and when a kick is served. The drain of the
-- reconciliation at the start of the ingress is not among them.
use previewer.Prelude.{
  ℕ, ◌+◌, ◌-◌, ◌≤◌, ◌≡◌, ◌≢◌, min, max, refl, inl, inr, Bool, true, false, ◌⊎◌, none, some, List,
  [], ◌∷◌, arith, All, Bool-cases,
}
use previewer.Ingress.Drainer.{
  Drainer, Effect, drains, max_wake_ms, kick, drain_returned, drain_threw, wake_delay,
  schedule_wake, fire, Event, kicked, returned_drain, threw_drain, fired, answered, step, run,
  Possible, AllPossible,
}

abbrev one_if : Bool → ℕ
one_if true = 1
one_if false = 0

abbrev starts : Effect → ℕ
starts drains = 1
starts _ = 0

abbrev ends : Event → ℕ
ends returned_drain = 1
ends threw_drain = 1
ends _ = 0

-- How many drains the events start, and how many of them end.
abbrev started : Drainer → List Event → ℕ
started d [] = 0
started d (e ∷ es) = starts (step d e).1 + started (step d e).0 es

abbrev ended : List Event → ℕ
ended [] = 0
ended (e ∷ es) = ends e + ended es

-- A step changes the number of running drains by those that it starts and ends.
step-balance :
    (d : Drainer) (e : Event)
    → Possible d e
    → one_if d.draining + starts (step d e).1 ≡ ends e + one_if (step d e).0.draining
unfolding step kick drain_returned drain_threw schedule_wake fire
step-balance d kicked p = ground arith
step-balance d returned_drain p = ground (arith, p)
step-balance d threw_drain p = ground (arith, p)
step-balance d fired p = ground arith
step-balance d (answered now (inl err)) p = omega arith
step-balance d (answered now (inr none)) p = omega arith
step-balance d (answered now (inr (some next))) p = omega arith

-- The drains that a kick or a timer starts: those that were running or are started are those that have
-- ended and, while `draining` is set, one more.
drains_balance :
    (d : Drainer) (es : List Event)
    → AllPossible d es
    → one_if d.draining + started d es ≡ ended es + one_if (run d es).draining
unfolding run
drains_balance d [] p = omega arith
drains_balance d (e ∷ es) p =
    omega (arith, step-balance d e p.0, drains_balance (step d e).0 es p.1)

-- An event that ends no drain.
abbrev pub Between : Event → Type 0
Between e = ends e ≡ 0

record IsOwed (d : Drainer) : Type 0 where
  draining : d.draining ≡ true
  pending : d.pending ≡ true

step-IsOwed : (d : Drainer) (e : Event) → Between e → IsOwed d → IsOwed (step d e).0
unfolding step kick schedule_wake fire
step-IsOwed d kicked b o = record {
  draining = ground (arith, o.draining);
  pending = ground (arith, o.draining);
}
step-IsOwed d returned_drain b o = absurd (omega (arith, b))
step-IsOwed d threw_drain b o = absurd (omega (arith, b))
step-IsOwed d fired b o = record {
  draining = ground (arith, o.draining);
  pending = ground (arith, o.draining);
}
step-IsOwed d (answered now (inl err)) b o = o
step-IsOwed d (answered now (inr none)) b o = record { draining = o.draining; pending = o.pending }
step-IsOwed d (answered now (inr (some next))) b o = record {
  draining = o.draining;
  pending = o.pending;
}

run-IsOwed : (d : Drainer) (es : List Event) → All Between es → IsOwed d → IsOwed (run d es)
unfolding run
run-IsOwed d [] b o = o
run-IsOwed d (e ∷ es) b o = run-IsOwed (step d e).0 es b.1 (step-IsOwed d e b.0 o)

kick-IsOwed : (d : Drainer) → d.draining ≡ true → IsOwed (kick d).0
unfolding kick
kick-IsOwed d running = record {
  draining = ground (arith, running);
  pending = ground (arith, running);
}

owed_drains : (d : Drainer) → IsOwed d → (drain_returned d).1 ≡ drains
unfolding drain_returned
owed_drains d o = rw o.pending refl

threw_starts_nothing : (d : Drainer) → (drain_threw d).1 ≢ drains
unfolding drain_threw
threw_starts_nothing d h = ground (arith, h)

-- A kick starts a drain at once; or one runs already, and then, whatever kicks, timers and look-ups
-- come between, another drain follows when that one returns, and none if it throws.
pub kick_served :
    (d : Drainer) (es : List Event)
    → All Between es
    → ((d.draining ≡ false) × ((kick d).1 ≡ drains))
      ⊎ ((d.draining ≡ true)
          × ((drain_returned (run (kick d).0 es)).1 ≡ drains)
          × ((drain_threw (run (kick d).0 es)).1 ≢ drains))
unfolding kick
kick_served d es b = elim (Bool-cases d.draining) [
  | inl running ↦ inr (
    running,
    owed_drains _ (run-IsOwed (kick d).0 es b (kick-IsOwed d running)),
    threw_starts_nothing _,
  )
  | inr free ↦ inl (free, rw free refl)
]

-- A timer is set that fires by `limit` at the latest, and when it fires it starts a drain.
pub record Armed (limit : ℕ) (d : Drainer) : Type 0 where
  pub at : ℕ
  pub set : d.timer ≡ some at
  pub soon : at ≤ limit
  pub serves : (fire d).1 ≡ drains

-- After a drain that throws: if the look-up after it finds a job that is visible at
-- `next`, a timer is set that starts a drain when it fires, not after `next` if that is still to come,
-- and else at once.
throw-Armed :
    (d : Drainer) (now next : ℕ)
    → Armed (max now next) (schedule_wake now (inr (some next)) (drain_threw d).0).0
unfolding schedule_wake drain_threw fire kick wake_delay
throw-Armed d now next = record {
  at = now + min (max 0 (next - now)) max_wake_ms;
  set = refl;
  soon = ground arith;
  serves = refl;
}

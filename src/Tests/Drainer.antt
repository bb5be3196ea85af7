-- ===== src/Tests/Drainer.antt =====
-- The processor of the ingress at concrete inputs.
use previewer.Prelude.{◌≡◌, ◌≢◌, true, false, refl, ◌⊎◌, inl, true, some, List, [], ◌∷◌}
use previewer.Core.Failure.{thrown_text}
use previewer.Ingress.Drainer.{
  Drainer, drains, kick, drain_returned, drain_threw, Event, kicked, fired, answered, run,
}
use previewer.Ingress.Drainer.Service.{kick_served}

abbrev busy : Drainer
busy = record { draining = true; pending = true; timer = some 2_000 }

abbrev some_events : List Event
some_events = fired ∷ answered 3_000 (inl (thrown_text "locked")) ∷ kicked ∷ []

kick_served_example :
    ((busy.draining ≡ false) × ((kick busy).1 ≡ drains))
    ⊎ ((busy.draining ≡ true)
        × ((drain_returned (run (kick busy).0 some_events)).1 ≡ drains)
        × ((drain_threw (run (kick busy).0 some_events)).1 ≢ drains))
kick_served_example = kick_served busy some_events (refl, (refl, (refl, tt)))

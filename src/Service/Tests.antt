-- ===== src/Service/Tests.antt =====
-- The machine on a short run.
use human_guard.Base.{◌+◌, refl, List, [], ◌∷◌, arith}
use human_guard.Clock.{minute}
use human_guard.Http.{empty, parsed}
use human_guard.Service.{Service, Event, check, behavior, analysis, sweep, trigger, serve_all}
use human_guard.Service.Invariant.{IsSound, serve_all-IsSound}
use human_guard.Value.{num}
use human_guard.Samples.{env, world, visitor_id, returning, newcomer, noon}

-- The visitor is checked, sends a batch whose analysis runs after a newcomer's check, is analysed on
-- demand, and the sweep runs.
abbrev day : List Event
day =
    check env returning empty
    ∷ behavior env returning visitor_id
        (parsed (record { session_id = visitor_id; metrics = ("clicks", num 3) ∷ [] }))
    ∷ check env newcomer empty
    ∷ analysis env 0
    ∷ trigger env visitor_id "owner"
    ∷ sweep (noon + minute)
    ∷ []

abbrev start : Service
start = record { world = world; jobs = [] }

start-IsSound : IsSound world
start-IsSound = record {
  keys = (tt, tt);
  coherent = ((refl, refl), tt);
  bounded = (omega arith, tt);
  pairs = (tt, tt);
}

serve_all-IsSound_example : IsSound (serve_all day start).world
serve_all-IsSound_example = serve_all-IsSound day start start-IsSound

-- ===== src/Service.antt =====
-- The visitor side of the server as one machine: requests to the check and behaviour endpoints,
-- analyses that run on their own threads, analyses that a user asks for, and the background sweep,
-- in any order. Each event carries its own surroundings. backend/handlers/visitor_session.go,
-- backend/handlers/behaviour.go, backend/storage/session.go.
pub mod Closure
pub mod Invariant
mod Tests
use human_guard.Base.{
  ℕ, zero, suc, ◌+◌, ◌-◌, ◌*◌, ◌≤◌, ◌<◌, String, ◌≡◌, refl, sym, ap, ◌∙◌, ◌≢◌, ◌↔◌, ◌⊎◌, inl, inr,
  Bool, true, false, not, ◌&&◌, ◌||◌, Option, none, some, List, [], ◌∷◌, ◌++◌, map, arith, ◌==◌,
  eq_iff, eq_refl, ltb, leb, eqb, if◌then◌else◌, Bool-cases, Option-cases, length, keep, count_if,
  any_of, All, Dict, lookup, insert, delete, adjust,
}
use human_guard.Clock.{Time}
use human_guard.Session.{cleanup_loop}
use human_guard.World.{World, Env}
use human_guard.Http.{Request, Body}
use human_guard.Visitor.{CheckBody, check_request}
use human_guard.Behavior.{BehaviorBatch, Job, submit_behavior, run_job, trigger_analysis}

-- The analyses that have been started and have not run yet are `jobs`.
pub record Service : Type 0 where
  pub world : World
  pub jobs : List Job

-- `analysis n` lets the thread at the position `n` run.
pub data Event : Type 0 where
  check : Env → Request → Body CheckBody → Event
  behavior : Env → Request → String → Body BehaviorBatch → Event
  analysis : Env → ℕ → Event
  trigger : Env → String → String → Event
  sweep : Time → Event

abbrev pub pick : ℕ → List Job → Option Job
pick n [] = none
pick zero (j ∷ js) = some j
pick (suc n) (j ∷ js) = pick n js

abbrev pub drop_at : ℕ → List Job → List Job
drop_at n [] = []
drop_at zero (j ∷ js) = js
drop_at (suc n) (j ∷ js) = j ∷ drop_at n js

abbrev pub spawn : Option Job → List Job → List Job
spawn none js = js
spawn (some j) js = js ++ j ∷ []

abbrev pub run_some : Env → Option Job → World → World
run_some env none w = w
run_some env (some j) w = run_job env j w

unfoldable pub serve : Event → Service → Service
serve (check env r body) s = record s { world = (check_request env r body s.world).0 }
serve (behavior env r id body) s =
    let done = submit_behavior env r id body s.world in
    record { world = done.world; jobs = spawn done.job s.jobs }
serve (analysis env n) s = record {
  world = run_some env (pick n s.jobs) s.world;
  jobs = drop_at n s.jobs;
}
serve (trigger env id user_id) s = record s { world = (trigger_analysis env id user_id s.world).0 }
serve (sweep now) s = record s {
  world = record (s.world) { sessions = cleanup_loop now s.world.sessions };
}

unfoldable pub serve_all : List Event → Service → Service
serve_all [] s = s
serve_all (e ∷ es) s = serve_all es (serve e s)

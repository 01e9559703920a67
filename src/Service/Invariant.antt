-- ===== src/Service/Invariant.antt =====
-- What holds of the visitor side of the server at any time, whatever requests come in, whatever the
-- database refuses, and in whatever order the analyses run.
use human_guard.Behavior.{Job}
use human_guard.Base.{
  All-keep, delete-All, insert-All, Distinct, ◌≤◌, String, Option, none, some, List, [], ◌∷◌, arith,
  All,
}
use human_guard.Clock.{Time}
use human_guard.Session.{
  ActiveSession, Sessions, started, create_session, update_session_activity, deactivate_session,
  block_session, unblock_session, update_risk_score, mark_captcha_shown, update_session_metrics,
  cleanup_loop, survives,
}
use human_guard.Session.Steps.{
  Op, create, touch, deactivate, block, unblock, show_captcha, score, measure, sweep as sweep_op,
  step,
}
use human_guard.Session.Effects.{modify-All, step-Distinct}
use human_guard.Session.Lifecycle.{AllCoherent, step-AllCoherent, IsFresh}
use human_guard.Sites.{BlacklistEntry}
use human_guard.Sites.Blacklist.{HasUniquePairs, add_to_blacklist-HasUniquePairs}
use human_guard.World.{World, Env}
use human_guard.Service.{
  Service, Event, check, behavior, analysis, trigger, sweep, pick, run_some, serve, serve_all,
}
use human_guard.Service.Closure.{
  IsAllowed, after_op, after_entry, check_request_closed, submit_behavior_closed, run_job_closed,
  trigger_analysis_closed,
}

abbrev pub IsBounded : String × ActiveSession → Type 0
IsBounded e = e.1.risk_score ≤ 100

-- Every risk score is at most 100.
abbrev pub AreBounded : Sessions → Type 0
AreBounded m = All IsBounded m

-- Each session stands once, under its own identifier, is blocked exactly when it is inactive, and
-- has a risk score of at most 100; no address stands twice on the blacklist of a site.
pub record IsSound (w : World) : Type 0 where
  pub keys : Distinct w.sessions
  pub coherent : AllCoherent w.sessions
  pub bounded : AreBounded w.sessions
  pub pairs : HasUniquePairs w.db.blacklist

allowed-IsFresh : (op : Op) → IsAllowed op → IsFresh op
allowed-IsFresh (create s) a = a.0
allowed-IsFresh (touch id) a = tt
allowed-IsFresh (deactivate id) a = tt
allowed-IsFresh (block id) a = tt
allowed-IsFresh (unblock id) a = tt
allowed-IsFresh (show_captcha id) a = tt
allowed-IsFresh (score id n) a = tt
allowed-IsFresh (measure id new) a = tt
allowed-IsFresh sweep_op a = tt

step-AreBounded :
    (now : Time) (op : Op) (m : Sessions) → IsAllowed op → AreBounded m → AreBounded (step now op m)
unfolding step create_session update_session_activity block_session unblock_session
    mark_captcha_shown update_risk_score update_session_metrics cleanup_loop deactivate_session
step-AreBounded now (create s) m a h = insert-All IsBounded s.id (started now s) m a.1 h
step-AreBounded now (touch id) m a h = modify-All IsBounded id _ m (λ k s c. c) h
step-AreBounded now (deactivate id) m a h = ground (arith, delete-All IsBounded id m h)
step-AreBounded now (block id) m a h = modify-All IsBounded id _ m (λ k s c. c) h
step-AreBounded now (unblock id) m a h = modify-All IsBounded id _ m (λ k s c. c) h
step-AreBounded now (show_captcha id) m a h = modify-All IsBounded id _ m (λ k s c. c) h
step-AreBounded now (score id n) m a h = modify-All IsBounded id _ m (λ k s c. a) h
step-AreBounded now (measure id new) m a h = modify-All IsBounded id _ m (λ k s c. c) h
step-AreBounded now sweep_op m a h = All-keep IsBounded (λ e. survives now e.1) m h

after_op-IsSound :
    (now : Time) (op : Op) (w : World) → IsAllowed op → IsSound w → IsSound (after_op now op w)
after_op-IsSound now op w a h = record {
  keys = step-Distinct now op w.sessions h.keys;
  coherent = step-AllCoherent now op w.sessions (allowed-IsFresh op a) h.coherent;
  bounded = step-AreBounded now op w.sessions a h.bounded;
  pairs = h.pairs;
}

after_entry-IsSound :
    (env : Env) (e : BlacklistEntry) (w : World) → IsSound w → IsSound (after_entry env e w)
after_entry-IsSound env e w h = record {
  keys = h.keys;
  coherent = h.coherent;
  bounded = h.bounded;
  pairs = add_to_blacklist-HasUniquePairs env.faults env.now env.fresh e w.db h.pairs;
}

run_some-IsSound : (env : Env) (o : Option Job) (w : World) → IsSound w → IsSound (run_some env o w)
run_some-IsSound env none w h = h
run_some-IsSound env (some j) w h =
    run_job_closed IsSound after_op-IsSound after_entry-IsSound env j w h

serve-IsSound : (e : Event) (s : Service) → IsSound s.world → IsSound (serve e s).world
unfolding serve step
serve-IsSound (check env r body) s h =
    check_request_closed IsSound after_op-IsSound after_entry-IsSound env r body s.world h
serve-IsSound (behavior env r id body) s h =
    submit_behavior_closed IsSound after_op-IsSound after_entry-IsSound env r id body s.world h
serve-IsSound (analysis env n) s h = run_some-IsSound env (pick n s.jobs) s.world h
serve-IsSound (trigger env id user_id) s h =
    trigger_analysis_closed IsSound after_op-IsSound after_entry-IsSound env id user_id s.world h
serve-IsSound (sweep now) s h = after_op-IsSound now sweep_op s.world tt h

-- Whatever sequence of check requests, behaviour batches, analyses in any order, analyses on demand
-- and sweeps the server serves, with whatever clock, whatever statements refused and whatever
-- identifiers drawn: each session stands once, under its own identifier, is blocked exactly when it is
-- inactive, and has a risk score of at most 100, and no address stands twice on a site's blacklist,
-- if this was so at the start.
pub serve_all-IsSound :
    (es : List Event) (s : Service) → IsSound s.world → IsSound (serve_all es s).world
unfolding serve_all
serve_all-IsSound [] s h = h
serve_all-IsSound (e ∷ es) s h = serve_all-IsSound es (serve e s) (serve-IsSound e s h)

-- ===== src/Session/Tests.antt =====
-- The session store on a concrete map.
use human_guard.Base.{Distinct, ◌+◌, ◌≡◌, refl, none, List, [], ◌∷◌, length, lookup, insert, adjust}
use human_guard.Clock.{Time, minute}
use human_guard.Session.{
  update_session_activity, create_session, get_session, cleanup_loop, block_session,
  update_risk_score, get_active_sessions_by_site, get_session_stats,
}
use human_guard.Session.Steps.{Op, create, touch, block, score, sweep, step, run, view, run_spec}
use human_guard.Session.Effects.{view-run}
use human_guard.Samples.{noon, visitor, visitor_id, store}

-- A visitor is touched, scored and blocked, another one comes, and the sweep runs.
abbrev day : List (Time × Op)
day =
    (noon, touch visitor_id)
    ∷ (noon, score visitor_id 90)
    ∷ (noon, block visitor_id)
    ∷ (noon, create (record visitor { id = "0191-other" }))
    ∷ (noon + minute, sweep)
    ∷ []

sessions_in_use : Unit {0}
unfolding create_session update_session_activity adjust run step get_session cleanup_loop
    block_session update_risk_score get_session_stats get_active_sessions_by_site lookup insert
sessions_in_use = tt

blocked_is_swept : lookup visitor_id (run store day) ≡ none
unfolding sessions_in_use
blocked_is_swept = refl

other_stays : length (run store day) ≡ 1
unfolding sessions_in_use
other_stays = refl

view-run_example : (view (run store day) ≡ run_spec (view store) day) × Distinct (run store day)
view-run_example = view-run day store (tt, tt)

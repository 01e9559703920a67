-- ===== src/Service/Closure.antt =====
-- Every event changes the session store by calls of its operations only, creates sessions active and
-- unblocked, and writes risk scores of at most 100: what such calls keep, every event keeps.
use human_guard.Base.{
  codes, byte_len, ℕ, ◌≤◌, String, ◌≡◌, refl, inl, inr, Bool, false, none, List, [], ◌∷◌, arith,
  ltb, Bool-cases, Option-cases, Dict, lookup,
}
use human_guard.Errors.{Result-cases}
use human_guard.Value.{Value}
use human_guard.Clock.{Time}
use human_guard.Session.{ActiveSession, get_session}
use human_guard.Session.Steps.{Op, create, touch, block, score, measure, step}
use human_guard.Session.Lifecycle.{IsFresh}
use human_guard.Sites.{BlacklistEntry, add_to_blacklist, Site, get_site}
use human_guard.World.{World, Env}
use human_guard.Detector.{
  Detector, new_detector, punish, conclude, analyze_and_update, analyze_result, prefilter,
  cached_result,
}
use human_guard.Detector.Effects.{auto_entry}
use human_guard.Detector.FreshRisk.{fresh_risk, fresh_risk-le, analyze_and_update-conclude}
use human_guard.Http.{header, Request, Cookie, Body, unreadable, empty, malformed, parsed}
use human_guard.Visitor.{
  CheckBody, Found, nothing, lost, foreign, existing, new_session, decide, check_found,
  session_id_of, check_session, check_body, check_site, check_request,
}
use human_guard.Behavior.{
  BehaviorBatch, Job, write_metrics, store_batch, submit_batch, submit_behavior, run_job,
  answer_analysis, trigger_analysis,
}

-- The calls that the events make.
abbrev pub IsAllowed : Op → Type 0
IsAllowed (create s) = IsFresh (create s) × (s.risk_score ≤ 100)
IsAllowed (score id n) = n ≤ 100
IsAllowed op = IsFresh op

-- An analysis of a session that is not there leaves everything as it was.
pub analyze_missing :
    (env : Env) (id ip ua : String) (w : World)
    → lookup id w.sessions ≡ none
    → (analyze_and_update env id ip ua w new_detector).world ≡ w
unfolding analyze_and_update prefilter cached_result get_session analyze_result lookup
analyze_missing env id ip ua w missing = ground arith

-- The world after one call of the session store, and after one entry is put on the blacklist.
abbrev pub after_op : Time → Op → World → World
after_op now op w = record w { sessions = step now op w.sessions }

abbrev pub after_entry : Env → BlacklistEntry → World → World
after_entry env e w = record w { db = (add_to_blacklist env.faults env.now env.fresh e w.db).0 }

module _ (P : World → Type 0)
    (closed : (now : Time) (op : Op) (w : World) → IsAllowed op → P w → P (after_op now op w))
    (listed : (env : Env) (e : BlacklistEntry) (w : World) → P w → P (after_entry env e w)) where
  decide_closed :
      (env : Env) (r : Request) (site : Site) (passed : Bool) (cookies : List Cookie) (id : String)
      (risk : ℕ) (w : World)
      → P w
      → P (decide env r site passed cookies id risk w).0
  unfolding decide step
  decide_closed env r site passed cookies id risk w h =
      let touched = closed env.now (touch id) w tt h in
      let reset =
        closed env.now (score id 0) (after_op env.now (touch id) w) (omega arith) touched in
      ground arith

  check_found_closed :
      (env : Env) (r : Request) (site : Site) (site_id : String) (passed : Bool) (w : World)
      (f : Found)
      → P w
      → P (check_found env r site site_id passed w f).0
  unfolding check_found step
  check_found_closed env r site site_id passed w nothing h =
      decide_closed env r site passed _ env.fresh 0 _
        (closed env.now (create (new_session env r site_id)) w ((refl, refl), omega arith) h)
  check_found_closed env r site site_id passed w lost h =
      decide_closed env r site passed _ env.fresh 0 _
        (closed env.now (create (new_session env r site_id)) w ((refl, refl), omega arith) h)
  check_found_closed env r site site_id passed w foreign h = h
  check_found_closed env r site site_id passed w (existing s) h =
      decide_closed env r site passed [] (session_id_of r) s.risk_score w h

  check_body_closed :
      (env : Env) (r : Request) (body : Body CheckBody) (site : Site) (site_id : String) (w : World)
      → P w
      → P (check_body env r body site site_id w).0
  unfolding check_body check_session
  check_body_closed env r unreadable site site_id w h = h
  check_body_closed env r malformed site site_id w h = h
  check_body_closed env r empty site site_id w h = check_found_closed env r site site_id false w _ h
  check_body_closed env r (parsed b) site site_id w h =
      check_found_closed env r site site_id b.captcha_passed w _ h

  check_site_closed :
      (env : Env) (r : Request) (body : Body CheckBody) (site : Site) (w : World)
      → P w
      → P (check_site env r body site w).0
  unfolding check_site
  check_site_closed env r body site w h =
      ground (arith, check_body_closed env r body site (header "X-Site-ID" r) w h)

  pub check_request_closed :
      (env : Env) (r : Request) (body : Body CheckBody) (w : World)
      → P w
      → P (check_request env r body w).0
  unfolding check_request
  check_request_closed env r body w h =
      elim (Result-cases (get_site env.floats env.faults (header "X-Site-ID" r) w.db)) [
        | inl (e, missing) ↦ ground arith
        | inr (site, found) ↦ ground (arith, check_site_closed env r body site w h)
      ]

  write_metrics_closed :
      (env : Env) (r : Request) (id : String) (s : ActiveSession) (new : Dict Value) (w : World)
      → P w
      → P (write_metrics env r id s new w).world
  unfolding write_metrics step
  write_metrics_closed env r id s new w h =
      let written = closed env.now (measure id new) w tt h in ground arith

  store_batch_closed :
      (env : Env) (r : Request) (id : String) (s : ActiveSession) (new : Dict Value) (w : World)
      → P w
      → P (store_batch env r id s new w).world
  unfolding store_batch
  store_batch_closed env r id s [] w h = h
  store_batch_closed env r id s (m ∷ ms) w h = write_metrics_closed env r id s _ w h

  submit_batch_closed :
      (env : Env) (r : Request) (id : String) (s : ActiveSession) (body : Body BehaviorBatch)
      (w : World)
      → P w
      → P (submit_batch env r id s body w).world
  unfolding submit_batch
  submit_batch_closed env r id s (parsed b) w h =
      ground (arith, store_batch_closed env r id s b.metrics w h)
  submit_batch_closed env r id s unreadable w h = h
  submit_batch_closed env r id s empty w h = h
  submit_batch_closed env r id s malformed w h = h

  pub submit_behavior_closed :
      (env : Env) (r : Request) (id : String) (body : Body BehaviorBatch) (w : World)
      → P w
      → P (submit_behavior env r id body w).world
  unfolding submit_behavior
  submit_behavior_closed env r id body w h = elim (Result-cases (get_session id w.sessions)) [
    | inl (e, missing) ↦ ground arith
    | inr (s, found) ↦ ground (arith, submit_batch_closed env r id s body w h)
  ]

  punish_closed :
      (env : Env) (id : String) (final : ℕ) (w : World) → P w → P (punish env id final w)
  unfolding punish step
  punish_closed env id final w h = elim (Result-cases (get_session id w.sessions)) [
    | inl (e, missing) ↦ rw (missing, punish) h
    | inr (s, found) ↦
        rw (found, punish)
          (listed env (auto_entry env final s) (after_op env.now (block id) w)
            (closed env.now (block id) w tt h))
  ]

  conclude_closed :
      (env : Env) (id : String) (final : ℕ) (w : World) (d : Detector)
      → final ≤ 100
      → P w
      → P (conclude env id final w d).world
  unfolding conclude step
  conclude_closed env id final w d small h =
      let scored = closed env.now (score id final) w small h in
      let punished = punish_closed env id final (after_op env.now (score id final) w) scored in
      ground arith

  pub analyze_and_update_closed :
      (env : Env) (id ip ua : String) (w : World)
      → P w
      → P (analyze_and_update env id ip ua w new_detector).world
  unfolding analyze_and_update
  analyze_and_update_closed env id ip ua w h = elim (Bool-cases (ltb (byte_len (codes id)) 8)) [
    | inl short ↦ rw (short, analyze_and_update) h
    | inr long ↦ elim (Option-cases (lookup id w.sessions)) [
      | inl missing ↦ rw (analyze_missing env id ip ua w missing) h
      | inr (s, found) ↦
          rw (analyze_and_update-conclude env id ip ua w s (ground (arith, long)) found) (
            conclude_closed env id (fresh_risk env id s ip ua w) w
              (prefilter env id ip ua w new_detector).0 (fresh_risk-le env id s ip ua w) h)
    ]
  ]

  pub run_job_closed : (env : Env) (job : Job) (w : World) → P w → P (run_job env job w)
  unfolding run_job
  run_job_closed env job w h =
      analyze_and_update_closed env job.session_id job.ip job.user_agent w h

  pub trigger_analysis_closed :
      (env : Env) (id user_id : String) (w : World) → P w → P (trigger_analysis env id user_id w).0
  unfolding trigger_analysis answer_analysis
  trigger_analysis_closed env id user_id w h =
      ground (arith, analyze_and_update_closed env id "" "" w h)

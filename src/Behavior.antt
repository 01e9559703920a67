-- ===== src/Behavior.antt =====
-- backend/handlers/behaviour.go: behaviour metrics come in, and an analysis of the session follows.
-- `SubmitBehavior` starts the analysis on its own thread: it is a job beside the answer, and running
-- it is a step of its own.
pub mod Submissions
pub mod OnDemand
mod Tests
use human_guard.Base.{
  ℕ, String, not, ◌&&◌, Option, none, some, [], ◌∷◌, ◌==◌, if◌then◌else◌, Dict, zero, suc, ◌+◌, ◌-◌,
  ◌*◌, ◌≤◌, ◌<◌, ◌≡◌, refl, sym, ap, ◌∙◌, ◌≢◌, ◌↔◌, ◌⊎◌, inl, inr, Bool, true, false, ◌||◌, List,
  ◌++◌, map, arith, eq_iff, eq_refl, ltb, leb, eqb, Bool-cases, Option-cases, length, keep,
  count_if, any_of, All, lookup, insert, delete, adjust,
}
use human_guard.Errors.{Result, ok, err}
use human_guard.Value.{Value}
use human_guard.Session.{
  ActiveSession, merge, get_session, get_session_metrics, update_session_metrics,
}
use human_guard.Sites.{Site, get_site}
use human_guard.World.{World, Env}
use human_guard.Detector.{Analysis, new_detector, panicked, failed, analyzed, analyze_and_update}
use human_guard.Http.{
  Request, Response, text, int, flag, Body, unreadable, empty, malformed, parsed, header,
  write_json, error_json,
}
use human_guard.Visitor.{is_active_site, is_own_origin, preflight_site, no_content}

pub record BehaviorBatch : Type 0 where
  pub session_id : String
  pub metrics : Dict Value

-- What the analysis thread is started with.
pub record Job : Type 0 where
  pub session_id : String
  pub ip : String
  pub user_agent : String

pub record Submission : Type 0 where
  pub world : World
  pub response : Response
  pub job : Option Job

unfoldable pub behavior_preflight : Env → Request → World → Response
behavior_preflight env r w = elim (preflight_site env r w) [
  | none ↦ no_content []
  | some site ↦ no_content (
      ("Access-Control-Allow-Origin", header "Origin" r)
      ∷ ("Access-Control-Allow-Methods", "POST, OPTIONS")
      ∷ ("Access-Control-Allow-Headers", "Content-Type, X-Site-ID")
      ∷ ("Access-Control-Max-Age", "86400")
      ∷ [])
]

abbrev granted : Site → String → Dict String
granted site origin =
    if is_active_site site && is_own_origin site origin
    then ("Access-Control-Allow-Origin", origin) ∷ ("Access-Control-Allow-Credentials", "true") ∷ []
    else []

unfoldable pub behavior_cors : Env → Request → World → Dict String
behavior_cors env r w =
    if header "Origin" r == ""
    then []
    else elim (get_site env.floats env.faults (header "X-Site-ID" r) w.db) [
      | err e ↦ []
      | ok site ↦ granted site (header "Origin" r)
    ]

abbrev refuse : World → ℕ → String → Submission
refuse w status message = record { world = w; response = error_json status message; job = none }

abbrev accept : Env → Request → String → ActiveSession → World → Submission
accept env r id s w = record {
  world = w;
  response = write_json (behavior_cors env r w) [] 202 (("status", text "accepted") ∷ []);
  job = some (record { session_id = id; ip = s.ip; user_agent = s.user_agent });
}

abbrev pub known_metrics : Result (Dict Value) → Dict Value
known_metrics (ok m) = m
known_metrics (err e) = []

unfoldable pub write_metrics :
    Env → Request → String → ActiveSession → Dict Value → World → Submission
write_metrics env r id s merged w =
    let (sessions, stored) = update_session_metrics id merged w.sessions in
    elim stored [
      | err e ↦ refuse w 500 "failed to update metrics"
      | ok _ ↦ accept env r id s (record w { sessions = sessions })
    ]

-- The new metrics are merged into those of the session; an empty batch writes nothing.
unfoldable pub store_batch :
    Env → Request → String → ActiveSession → Dict Value → World → Submission
store_batch env r id s [] w = accept env r id s w
store_batch env r id s (m ∷ ms) w =
    write_metrics env r id s (merge (known_metrics (get_session_metrics id w.sessions)) (m ∷ ms)) w

unfoldable pub submit_batch :
    Env → Request → String → ActiveSession → Body BehaviorBatch → World → Submission
submit_batch env r id s (parsed batch) w =
    if batch.session_id == id
    then store_batch env r id s batch.metrics w
    else refuse w 400 "session_id mismatch"
submit_batch env r id s unreadable w = refuse w 400 "invalid json"
submit_batch env r id s empty w = refuse w 400 "invalid json"
submit_batch env r id s malformed w = refuse w 400 "invalid json"

unfoldable pub submit_behavior : Env → Request → String → Body BehaviorBatch → World → Submission
submit_behavior env r id body w =
    let site_id = header "X-Site-ID" r in
    if r.method == "OPTIONS"
    then record { world = w; response = behavior_preflight env r w; job = none }
    else if id == ""
    then refuse w 400 "session_id required"
    else elim (get_session id w.sessions) [
      | err e ↦ refuse w 404 "session not found"
      | ok s ↦
          if not (site_id == "") && not (s.site_id == site_id)
          then refuse w 403 "site_id mismatch"
          else submit_batch env r id s body w
    ]

-- The thread: a new detector, and a failure is only logged.
unfoldable pub run_job : Env → Job → World → World
run_job env job w =
    (analyze_and_update env job.session_id job.ip job.user_agent w new_detector).world

-- A panic in a handler drops the connection.
pub data Reply : Type 0 where
  dropped : Reply
  replied : Response → Reply

abbrev pub analysis_answer : ActiveSession → Response
analysis_answer s =
    write_json [] [] 200 (("risk_score", int s.risk_score) ∷ ("is_blocked", flag s.is_blocked) ∷ [])

abbrev error_text : String
error_text = "get visitor session failed: session not found"

unfoldable pub answer_analysis : String → Analysis → World × Reply
answer_analysis id a = elim a.outcome [
  | panicked ↦ (a.world, dropped)
  | failed e ↦ (a.world, replied (error_json 500 error_text))
  | analyzed ↦ elim (get_session id a.world.sessions) [
    | err e ↦ (a.world, replied (error_json 500 "failed to get session"))
    | ok s ↦ (a.world, replied (analysis_answer s))
  ]
]

-- `TriggerAnalysis` for the user that the authentication found; it hands over no address and no
-- user agent. An analysis fails only when its session is not found, so `error_text` is that error's.
unfoldable pub trigger_analysis : Env → String → String → World → World × Reply
trigger_analysis env id user_id w =
    if id == ""
    then (w, replied (error_json 400 "session_id required"))
    else if user_id == ""
    then (w, replied (error_json 401 "unauthorized"))
    else answer_analysis id (analyze_and_update env id "" "" w new_detector)

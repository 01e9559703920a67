-- ===== src/Visitor.antt =====
-- backend/handlers/visitor_session.go, `CheckRequest`: the check that the reverse proxy asks for.
-- Log lines are left out. The handler runs alone on the state; what it stores are pointers that the
-- store shares, so a risk read after `UpdateSessionActivity` is the one of the session found.
pub mod Decisions
pub mod Checks
pub mod Answering
pub mod Verdicts
pub mod NewSessions
pub mod Listings
mod Tests
use Prim.Native.String.{◌++◌ as concat}
use human_guard.Base.{
  ◌++◌, ℕ, zero, suc, ◌+◌, ◌-◌, ◌*◌, ◌≤◌, ◌<◌, String, ◌≡◌, refl, sym, ap, ◌∙◌, ◌≢◌, ◌↔◌, ◌⊎◌, inl,
  inr, Bool, true, false, not, ◌&&◌, ◌||◌, Option, none, some, List, [], ◌∷◌, map, arith, ◌==◌,
  eq_iff, eq_refl, ltb, leb, eqb, if◌then◌else◌, Bool-cases, Option-cases, length, keep, count_if,
  any_of, All, Dict, lookup, insert, delete, adjust,
}
use human_guard.Errors.{Result, ok, err}
use human_guard.Clock.{Time}
use human_guard.Session.{
  ActiveSession, Sessions, get_session, create_session, update_session_activity, update_risk_score,
}
use human_guard.Sites.{Site, get_site, is_blacklisted}
use human_guard.World.{World, Env}
use human_guard.Detector.{is_listed}
use human_guard.Http.{
  Request, Response, Cookie, Field, text, int, flag, Body, unreadable, empty, malformed, parsed,
  lax, unset, seconds, expire_now, header, cookie_value, write_json, error_json, error_body,
  get_real_ip,
}

-- The field `captcha_passed` of the body; the field `site_id` is decoded and never read.
pub record CheckBody : Type 0 where
  pub site_id : String
  pub captcha_passed : Bool

abbrev pub is_active_site : Site → Bool
is_active_site site = site.status == "active"

-- `origin == "http://"+site.Domain || origin == "https://"+site.Domain`.
abbrev pub is_own_origin : Site → String → Bool
is_own_origin site origin =
    origin == concat "http://" site.domain || origin == concat "https://" site.domain

-- The site whose own pages may read the answer, for a preflight request.
unfoldable pub preflight_site : Env → Request → World → Option Site
preflight_site env r w =
    if header "X-Site-ID" r == ""
    then none
    else elim (get_site env.floats env.faults (header "X-Site-ID" r) w.db) [
      | err e ↦ none
      | ok site ↦
          if is_active_site site && is_own_origin site (header "Origin" r) then some site else none
    ]

abbrev pub no_content : Dict String → Response
no_content headers = record { status = 204; headers = headers; cookies = []; body = [] }

unfoldable pub check_preflight : Env → Request → World → Response
check_preflight env r w = elim (preflight_site env r w) [
  | none ↦ no_content []
  | some site ↦ no_content (
      ("Access-Control-Allow-Origin", header "Origin" r)
      ∷ ("Access-Control-Allow-Methods", "GET, POST, PUT, DELETE, OPTIONS")
      ∷ ("Access-Control-Allow-Headers", "Content-Type, X-Site-ID, X-Session-ID")
      ∷ ("Access-Control-Max-Age", "86400")
      ∷ [])
]

-- The CORS headers of the answer proper.
unfoldable pub check_cors : Site → String → Dict String
check_cors site origin =
    if not (origin == "") && is_active_site site && is_own_origin site origin
    then ("Access-Control-Allow-Origin", origin)
      ∷ ("Access-Control-Allow-Credentials", "true")
      ∷ ("Access-Control-Allow-Methods", "GET, POST, PUT, DELETE, OPTIONS")
      ∷ ("Access-Control-Allow-Headers", "Content-Type, X-Site-ID, X-Session-ID")
      ∷ ("Access-Control-Expose-Headers", "X-Session-ID, X-Request-ID")
      ∷ []
    else []

-- The header, or else the cookie.
abbrev pub session_id_of : Request → String
session_id_of r =
    if header "X-Session-ID" r == "" then cookie_value "hg_session" r else header "X-Session-ID" r

abbrev pub cleared_cookie : Cookie
cleared_cookie = record {
  name = "hg_session";
  value = "";
  path = "/";
  http_only = true;
  secure = true;
  same_site = unset;
  max_age = expire_now;
}

abbrev pub session_cookie : String → Cookie
session_cookie id = record {
  name = "hg_session";
  value = id;
  path = "/";
  http_only = true;
  secure = true;
  same_site = lax;
  max_age = seconds 1800;
}

-- What the identifier of the request leads to.
pub data Found : Type 0 where
  nothing lost foreign : Found
  existing : ActiveSession → Found

unfoldable pub find_session : String → String → Sessions → Found
find_session site_id id m = if id == "" then nothing else elim (get_session id m) [
  | err e ↦ lost
  | ok s ↦ if s.site_id == site_id then existing s else foreign
]

abbrev pub new_session : Env → Request → String → ActiveSession
new_session env r site_id = record {
  id = env.fresh;
  site_id = site_id;
  ip = get_real_ip r;
  user_agent = r.user_agent;
  device = "";
  location = "";
  is_active = true;
  risk_score = 0;
  is_blocked = false;
  captcha_shown = false;
  fingerprint = "";
  metrics = [];
  created_at = 0;
  last_activity = 0;
  expires_at = 0;
}

abbrev pub action_for : ℕ → String
action_for risk = if leb 80 risk then "block" else if leb 50 risk then "captcha" else "allow"

abbrev pub check_answer : Dict String → List Cookie → String → String → ℕ → Response
check_answer headers cookies action id risk =
    write_json headers cookies 200
      (("action", text action) ∷ ("session_id", text id) ∷ ("risk_score", int risk) ∷ [])

-- From the activity stamp to the answer. A CAPTCHA that the body reports as passed resets the risk.
unfoldable pub decide :
    Env → Request → Site → Bool → List Cookie → String → ℕ → World → World × Response
decide env r site captcha_passed cookies id risk w =
    let touched = (update_session_activity env.now id w.sessions).0 in
    let cors = check_cors site (header "Origin" r) in
    let (reset, stored) = update_risk_score id 0 touched in
    if captcha_passed
    then elim stored [
      | err e ↦ (
        record w { sessions = touched },
        write_json [] cookies 500 (error_body "failed to reset risk score"),
      )
      | ok _ ↦ (record w { sessions = reset }, check_answer cors cookies "allow" id 0)
    ]
    else (record w { sessions = touched }, check_answer cors cookies (action_for risk) id risk)

-- A session is made when the request brings none that is known.
abbrev pub start_session :
    Env → Request → Site → String → Bool → List Cookie → World → World × Response
start_session env r site site_id captcha_passed cookies w =
    let s = new_session env r site_id in
    decide env r site captcha_passed (cookies ++ session_cookie s.id ∷ []) s.id s.risk_score
      (record w { sessions = create_session env.now s w.sessions })

unfoldable pub check_found : Env → Request → Site → String → Bool → World → Found → World × Response
check_found env r site site_id captcha_passed w nothing =
    start_session env r site site_id captcha_passed [] w
check_found env r site site_id captcha_passed w lost =
    start_session env r site site_id captcha_passed (cleared_cookie ∷ []) w
check_found env r site site_id captcha_passed w foreign =
    (w, error_json 403 "session does not belong to this site")
check_found env r site site_id captcha_passed w (existing s) =
    decide env r site captcha_passed [] (session_id_of r) s.risk_score w

unfoldable pub check_session : Env → Request → Site → String → Bool → World → World × Response
check_session env r site site_id captcha_passed w =
    check_found env r site site_id captcha_passed w
      (find_session site_id (session_id_of r) w.sessions)

unfoldable pub check_body :
    Env → Request → Body CheckBody → Site → String → World → World × Response
check_body env r unreadable site site_id w = (w, error_json 400 "failed to read request body")
check_body env r malformed site site_id w = (w, error_json 400 "invalid request body")
check_body env r empty site site_id w = check_session env r site site_id false w
check_body env r (parsed b) site site_id w = check_session env r site site_id b.captcha_passed w

abbrev pub blocked_ip : Response
blocked_ip =
    write_json [] [] 403 (("error", text "your IP is blocked") ∷ ("action", text "block") ∷ [])

unfoldable pub check_site : Env → Request → Body CheckBody → Site → World → World × Response
check_site env r body site w =
    let site_id = header "X-Site-ID" r in
    if not (is_active_site site)
    then (w, error_json 403 "site is not active")
    else if is_listed (is_blacklisted env.faults env.now site_id (get_real_ip r) w.db)
    then (w, blocked_ip)
    else check_body env r body site site_id w

unfoldable pub check_request : Env → Request → Body CheckBody → World → World × Response
check_request env r body w =
    let site_id = header "X-Site-ID" r in
    if r.method == "OPTIONS"
    then (w, check_preflight env r w)
    else if site_id == ""
    then (w, error_json 400 "X-Site-ID header required")
    else elim (get_site env.floats env.faults site_id w.db) [
      | err e ↦ (w, error_json 404 "site not found")
      | ok site ↦ check_site env r body site w
    ]

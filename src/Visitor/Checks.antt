-- ===== src/Visitor/Checks.antt =====
-- The properties of the request check.
use human_guard.Base.{
  lookup-insert_self, ℕ, String, ◌≡◌, refl, ap, ◌≢◌, ◌⊎◌, inl, inr, Bool, true, false, some, List,
  [], ◌∷◌, ◌++◌, arith, eq_iff, Bool-cases, Option-cases, lookup,
}
use human_guard.Errors.{Error, Result, ok, err}
use human_guard.Clock.{Time}
use human_guard.Session.{ActiveSession, Sessions, get_session, create_session, started}
use human_guard.Sites.{Site, get_site, is_blacklisted}
use human_guard.World.{World, Env}
use human_guard.Detector.{is_listed}
use human_guard.Http.{
  Request, Response, Cookie, Body, unreadable, empty, malformed, parsed, header, get_real_ip,
}
use human_guard.Visitor.{
  cleared_cookie, check_found, CheckBody, Found, nothing, lost, foreign, existing, is_active_site,
  session_id_of, find_session, new_session, session_cookie, start_session, decide, check_session,
  check_body, check_site, check_request,
}
use human_guard.Visitor.Decisions.{decide_plain, decide_captcha}

-- Nothing but an answer with status 200 comes with a change of the state.
abbrev pub Harmless : World → World × Response → Type 0
Harmless w x = (x.1.status ≡ 200) ⊎ (x.0 ≡ w)

pub decide-status :
    (env : Env) (r : Request) (site : Site) (captcha : Bool) (cookies : List Cookie) (id : String)
    (risk : ℕ) (w : World) (s : ActiveSession)
    → lookup id w.sessions ≡ some s
    → (decide env r site captcha cookies id risk w).1.status ≡ 200
decide-status env r site true cookies id risk w s e =
    ap (λ x. x.status) (decide_captcha env r site cookies id risk w s e id).0
decide-status env r site false cookies id risk w s e =
    ap (λ x. x.status) (decide_plain env r site cookies id risk w s e id).0

pub lookup-create_session :
    (now : Time) (s : ActiveSession) (m : Sessions)
    → lookup s.id (create_session now s m) ≡ some (started now s)
unfolding create_session
lookup-create_session now s m = lookup-insert_self s.id (started now s) m

pub start_session-status :
    (env : Env) (r : Request) (site : Site) (site_id : String) (captcha : Bool)
    (cookies : List Cookie) (w : World)
    → (start_session env r site site_id captcha cookies w).1.status ≡ 200
start_session-status env r site site_id captcha cookies w =
    let s = new_session env r site_id in
    decide-status env r site captcha (cookies ++ session_cookie s.id ∷ []) s.id s.risk_score
      (record w { sessions = create_session env.now s w.sessions }) (started env.now s)
      (lookup-create_session env.now s w.sessions)

-- The session that a lookup by the request's identifier finds stands in the store.
pub find_session-existing :
    (site_id id : String) (m : Sessions) (s : ActiveSession)
    → find_session site_id id m ≡ existing s
    → (lookup id m ≡ some s) × (s.site_id ≡ site_id)
unfolding find_session get_session
find_session-existing site_id id m s e = elim (Option-cases (lookup id m)) [
  | inl absent ↦ ground arith
  | inr (t, found) ↦ ground (arith, eq_iff t.site_id site_id)
]

check_found-Harmless :
    (env : Env) (r : Request) (site : Site) (site_id : String) (captcha : Bool) (w : World)
    (f : Found)
    → find_session site_id (session_id_of r) w.sessions ≡ f
    → Harmless w (check_found env r site site_id captcha w f)
unfolding check_found
check_found-Harmless env r site site_id captcha w nothing e =
    inl (start_session-status env r site site_id captcha [] w)
check_found-Harmless env r site site_id captcha w lost e =
    inl (start_session-status env r site site_id captcha (cleared_cookie ∷ []) w)
check_found-Harmless env r site site_id captcha w foreign e = inr refl
check_found-Harmless env r site site_id captcha w (existing s) e = inl (
    decide-status env r site captcha [] (session_id_of r) s.risk_score w s
      (find_session-existing site_id (session_id_of r) w.sessions s e).0)

check_session-Harmless :
    (env : Env) (r : Request) (site : Site) (site_id : String) (captcha : Bool) (w : World)
    → Harmless w (check_session env r site site_id captcha w)
unfolding check_session
check_session-Harmless env r site site_id captcha w =
    check_found-Harmless env r site site_id captcha w _ refl

check_body-Harmless :
    (env : Env) (r : Request) (body : Body CheckBody) (site : Site) (site_id : String) (w : World)
    → Harmless w (check_body env r body site site_id w)
unfolding check_body
check_body-Harmless env r unreadable site site_id w = inr refl
check_body-Harmless env r malformed site site_id w = inr refl
check_body-Harmless env r empty site site_id w = check_session-Harmless env r site site_id false w
check_body-Harmless env r (parsed b) site site_id w =
    check_session-Harmless env r site site_id b.captcha_passed w

check_site-Harmless :
    (env : Env) (r : Request) (body : Body CheckBody) (site : Site) (w : World)
    → Harmless w (check_site env r body site w)
unfolding check_site
check_site-Harmless env r body site w =
    let passed = check_body-Harmless env r body site (header "X-Site-ID" r) w in
    elim (Bool-cases (is_active_site site)) [
      | inr inactive ↦ rw (inactive, check_site) (inr refl)
      | inl active ↦
          elim (Bool-cases (
            is_listed
              (is_blacklisted env.faults env.now (header "X-Site-ID" r) (get_real_ip r) w.db))) [
                | inl listed ↦ rw (active, listed, check_site) (inr refl)
                | inr free ↦ rw (active, free, check_site) passed
              ]
    ]

Result-cases : (x : Result Site) → ((e : Error) × (x ≡ err e)) ⊎ ((s : Site) × (x ≡ ok s))
Result-cases (ok s) = inr (s, refl)
Result-cases (err e) = inl (e, refl)

check_request-Harmless :
    (env : Env) (r : Request) (body : Body CheckBody) (w : World)
    → Harmless w (check_request env r body w)
unfolding check_request
check_request-Harmless env r body w =
    elim (Result-cases (get_site env.floats env.faults (header "X-Site-ID" r) w.db)) [
      | inl (e, missing) ↦ ground (arith, missing)
      | inr (site, known) ↦ ground (arith, known, check_site-Harmless env r body site w)
    ]

-- A check whose answer has not status 200 leaves the state of the service as it was: a refusal of
-- any kind, and a preflight request, create no session and touch none.
pub check_request_refused :
    (env : Env) (r : Request) (body : Body CheckBody) (w : World)
    → (check_request env r body w).1.status ≢ 200
    → (check_request env r body w).0 ≡ w
check_request_refused env r body w h = elim (check_request-Harmless env r body w) [
  | inl served ↦ absurd (h served)
  | inr same ↦ same
]

pub check_site_open :
    (env : Env) (r : Request) (body : Body CheckBody) (site : Site) (w : World)
    → is_active_site site ≡ true
    → is_listed (is_blacklisted env.faults env.now (header "X-Site-ID" r) (get_real_ip r) w.db)
      ≡ false
    → check_site env r body site w ≡ check_body env r body site (header "X-Site-ID" r) w
unfolding check_site
check_site_open env r body site w active free = rw (active, free)

pub check_body_found :
    (env : Env) (r : Request) (b : CheckBody) (site : Site) (site_id : String) (w : World)
    (f : Found)
    → find_session site_id (session_id_of r) w.sessions ≡ f
    → check_body env r (parsed b) site site_id w
      ≡ check_found env r site site_id b.captcha_passed w f
unfolding check_body check_session
check_body_found env r b site site_id w f e = rw e

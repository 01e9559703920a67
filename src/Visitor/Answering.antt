-- ===== src/Visitor/Answering.antt =====
-- Which checks are answered by the risk of a known session, and with what.
use human_guard.Base.{
  ℕ, ◌+◌, ◌*◌, ◌≤◌, ◌<◌, String, ◌≡◌, refl, ◌∙◌, ◌⊎◌, inl, inr, Bool, true, false, some, [], ◌∷◌,
  arith, ◌==◌, leb, if◌then◌else◌, Bool-cases, lookup,
}
use human_guard.Clock.{minute}
use human_guard.Session.{ActiveSession}
use human_guard.Sites.{Site, is_blacklisted}
use human_guard.World.{World, Env}
use human_guard.Detector.{is_listed}
use human_guard.Http.{
  Request, Response, Body, unreadable, empty, malformed, parsed, header, get_real_ip, text, int,
  write_json,
}
use human_guard.Visitor.{
  CheckBody, action_for, check_cors, session_id_of, decide, check_session, check_body,
}
use human_guard.Visitor.Decisions.{IsFor, decide_plain, decide_captcha}

abbrev pub is_readable : Body CheckBody → Bool
is_readable unreadable = false
is_readable malformed = false
is_readable empty = true
is_readable (parsed b) = true

-- Whether a body says that a CAPTCHA was passed.
abbrev pub says_passed : Body CheckBody → Bool
says_passed (parsed b) = b.captcha_passed
says_passed empty = false
says_passed unreadable = false
says_passed malformed = false

-- A check that is answered by the risk of a session: it is for an active site, from an address that
-- is not blacklisted there, with a body that can be read, and the session is one of the site.
pub record IsAdmitted (env : Env) (r : Request) (body : Body CheckBody) (w : World)
    (s : ActiveSession) (site : Site) : Type 0 where
  pub for : IsFor env r w site
  pub active : site.status ≡ "active"
  pub free :
      is_listed (is_blacklisted env.faults env.now (header "X-Site-ID" r) (get_real_ip r) w.db)
      ≡ false
  pub readable : is_readable body ≡ true
  pub own : s.site_id ≡ header "X-Site-ID" r

-- The answer that tells an action and a risk, with status 200 and without a cookie.
abbrev pub tells : Request → Site → String → ℕ → Response
tells r site action risk = write_json (check_cors site (header "Origin" r)) [] 200 (
    ("action", text action)
    ∷ ("session_id", text (session_id_of r))
    ∷ ("risk_score", int risk)
    ∷ [])

-- The answer for a risk: allow after a CAPTCHA; else block from 80, captcha from 50, allow below.
abbrev pub Answers : Request → Site → Bool → ℕ → Response → Type 0
Answers r site passed risk x =
    ((passed ≡ true) × (x ≡ tells r site "allow" 0))
    ⊎ ((passed ≡ false) × (80 ≤ risk) × (x ≡ tells r site "block" risk))
    ⊎ ((passed ≡ false) × (50 ≤ risk) × (risk < 80) × (x ≡ tells r site "captcha" risk))
    ⊎ ((passed ≡ false) × (risk < 50) × (x ≡ tells r site "allow" risk))

-- The session is renewed for 30 minutes, with the risk 0 after a CAPTCHA; nothing else changes.
pub record IsServed (env : Env) (r : Request) (passed : Bool) (w : World) (s : ActiveSession)
    (site : Site) (j : String) (x : World × Response) : Type 0 where
  pub answer : Answers r site passed s.risk_score x.1
  pub sessions : lookup j x.0.sessions ≡ (
      if session_id_of r == j
      then some (record s {
        last_activity = env.now;
        expires_at = env.now + 30 * minute;
        risk_score = if passed then 0 else s.risk_score;
      })
      else lookup j w.sessions)
  pub tables : x.0.db ≡ w.db

pub Answers-status :
    (r : Request) (site : Site) (passed : Bool) (risk : ℕ) (x : Response)
    → Answers r site passed risk x
    → x.status ≡ 200
Answers-status r site passed risk x h = ground arith

plain_answer :
    (r : Request) (site : Site) (risk : ℕ) (x : Response)
    → x ≡ tells r site (action_for risk) risk
    → Answers r site false risk x
plain_answer r site risk x e = elim (Bool-cases (leb 80 risk)) [
  | inl high ↦ inr (inl (refl, ground arith, e ∙ rw high refl))
  | inr low ↦ elim (Bool-cases (leb 50 risk)) [
    | inl middle ↦ inr (inr (inl (refl, ground arith, ground arith, e ∙ rw (low, middle) refl)))
    | inr small ↦ inr (inr (inr (refl, ground arith, e ∙ rw (low, small) refl)))
  ]
]

pub decide-IsServed :
    (env : Env) (r : Request) (site : Site) (passed : Bool) (w : World) (s : ActiveSession)
    (j : String)
    → lookup (session_id_of r) w.sessions ≡ some s
    → IsServed env r passed w s site j
        (decide env r site passed [] (session_id_of r) s.risk_score w)
decide-IsServed env r site true w s j known =
    let (told, there, same) =
      decide_captcha env r site [] (session_id_of r) s.risk_score w s known j in
    record { answer = inl (refl, told); sessions = there; tables = same }
decide-IsServed env r site false w s j known =
    let (told, there, same) =
      decide_plain env r site [] (session_id_of r) s.risk_score w s known j in
    record {
      answer =
          plain_answer r site s.risk_score
            (decide env r site false [] (session_id_of r) s.risk_score w).1 told;
      sessions = there;
      tables = same;
    }

pub check_body_readable :
    (env : Env) (r : Request) (body : Body CheckBody) (site : Site) (site_id : String) (w : World)
    → is_readable body ≡ true
    → check_body env r body site site_id w ≡ check_session env r site site_id (says_passed body) w
unfolding check_body
check_body_readable env r unreadable site site_id w h = ground arith
check_body_readable env r malformed site site_id w h = ground arith
check_body_readable env r empty site site_id w h = refl
check_body_readable env r (parsed b) site site_id w h = refl

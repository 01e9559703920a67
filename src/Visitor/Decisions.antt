-- ===== src/Visitor/Decisions.antt =====
-- What the check of a request answers, on each of its branches.
use human_guard.Base.{
  ◌≡◌, refl, false, ◌==◌, ℕ, ◌+◌, ◌*◌, String, ap, ◌∙◌, true, some, List, arith, eq_iff, eq_refl,
  if◌then◌else◌, lookup,
}
use human_guard.Errors.{ok}
use human_guard.Sites.{Site, get_site}
use human_guard.World.{World, Env}
use human_guard.Http.{Cookie, Request, Body, header}
use human_guard.Visitor.{
  action_for, check_cors, check_answer, decide, CheckBody, check_site, check_request,
}
use human_guard.Session.{
  ActiveSession, Sessions, modify, update_session_activity, update_risk_score,
}
use human_guard.Clock.{Time, minute}
use human_guard.Session.Effects.{lookup-modify}

-- A request that is checked for a site: no preflight, and the site is known.
pub record IsFor (env : Env) (r : Request) (w : World) (site : Site) : Type 0 where
  pub method : (r.method == "OPTIONS") ≡ false
  pub named : (header "X-Site-ID" r == "") ≡ false
  pub known : get_site env.floats env.faults (header "X-Site-ID" r) w.db ≡ ok site

pub check_request_for :
    (env : Env) (r : Request) (body : Body CheckBody) (w : World) (site : Site)
    → IsFor env r w site
    → check_request env r body w ≡ check_site env r body site w
unfolding check_request
check_request_for env r body w site h = rw (h.method, h.named, h.known) refl

abbrev pub touched : Time → ActiveSession → ActiveSession
touched now s = record s { last_activity = now; expires_at = now + 30 * minute }

abbrev pub reset : Time → ActiveSession → ActiveSession
reset now s = record s { last_activity = now; expires_at = now + 30 * minute; risk_score = 0 }

lookup-touch :
    (now : Time) (id j : String) (m : Sessions) (s : ActiveSession)
    → lookup id m ≡ some s
    → lookup j (update_session_activity now id m).0
      ≡ (if id == j then some (touched now s) else lookup j m)
unfolding update_session_activity
lookup-touch now id j m s e = ground (
  arith,
  lookup-modify id j (touched now) m,
  e,
  eq_iff id j,
  ap (λ k. lookup k m) {x = id} {y = j},
)

lookup-reset :
    (id j : String) (m : Sessions) (s : ActiveSession)
    → lookup id m ≡ some s
    → (lookup j (update_risk_score id 0 m).0
        ≡ (if id == j then some (record s { risk_score = 0 }) else lookup j m))
      × ((update_risk_score id 0 m).1 ≡ ok tt)
unfolding update_risk_score
lookup-reset id j m s e =
    let zero_risk = λ (t : ActiveSession). record t { risk_score = 0 } in
    (
      ground (
        arith,
        lookup-modify id j zero_risk m,
        e,
        eq_iff id j,
        ap (λ k. lookup k m) {x = id} {y = j},
      ),
      unfold modify in rw (e, modify) refl,
    )

module _ (env : Env) (r : Request) (site : Site) (cookies : List Cookie) (id : String) (risk : ℕ)
    (w : World) (s : ActiveSession) (known : lookup id w.sessions ≡ some s) where
  pub decide_plain :
      (j : String)
      → ((decide env r site false cookies id risk w).1
          ≡ check_answer (check_cors site (header "Origin" r)) cookies (action_for risk) id risk)
        × (lookup j (decide env r site false cookies id risk w).0.sessions
            ≡ (if id == j then some (touched env.now s) else lookup j w.sessions))
        × ((decide env r site false cookies id risk w).0.db ≡ w.db)
  unfolding decide
  decide_plain j = (refl, lookup-touch env.now id j w.sessions s known, refl)

  pub decide_captcha :
      (j : String)
      → ((decide env r site true cookies id risk w).1
          ≡ check_answer (check_cors site (header "Origin" r)) cookies "allow" id 0)
        × (lookup j (decide env r site true cookies id risk w).0.sessions
            ≡ (if id == j then some (reset env.now s) else lookup j w.sessions))
        × ((decide env r site true cookies id risk w).0.db ≡ w.db)
  unfolding decide
  decide_captcha j =
      let m = (update_session_activity env.now id w.sessions).0 in
      let here : lookup id m ≡ some (touched env.now s) =
        lookup-touch env.now id id w.sessions s known ∙ rw (eq_refl id) refl in
      let zeroed = lookup-reset id j m (touched env.now s) here in
      let outside = lookup-touch env.now id j w.sessions s known in
      rw (zeroed.1, decide) (refl, ground (arith, zeroed.0, outside), refl)

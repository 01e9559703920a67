-- ===== src/Visitor/Verdicts.antt =====
-- What the check answers to a visitor whose session is known.
use human_guard.Errors.{Result-cases}
use human_guard.Base.{
  eqb, String, ◌≡◌, refl, ◌∙◌, ◌≢◌, ◌⊎◌, inl, inr, Bool, true, false, some, [], arith, ◌==◌, eq_iff,
  if◌then◌else◌, Bool-cases, lookup, sym, ap, Option-cases,
}
use human_guard.Session.{ActiveSession, get_session}
use human_guard.Sites.{get_site, Site, is_blacklisted}
use human_guard.World.{World, Env}
use human_guard.Detector.{is_listed}
use human_guard.Http.{Request, Body, header, get_real_ip}
use human_guard.Visitor.{
  is_active_site, preflight_site, check_preflight, check_site, CheckBody, existing, foreign,
  session_id_of, find_session, decide, check_found, check_session, check_body, check_request,
}
use human_guard.Visitor.Decisions.{IsFor, check_request_for}
use human_guard.Visitor.Checks.{check_request_refused, check_site_open}
use human_guard.Visitor.Answering.{
  is_readable, says_passed, IsAdmitted, IsServed, Answers-status, decide-IsServed,
  check_body_readable,
}

module _ (env : Env) (r : Request) (body : Body CheckBody) (w : World) (s : ActiveSession)
    (given : session_id_of r ≢ "") (known : lookup (session_id_of r) w.sessions ≡ some s) where
  check_session_known :
      (site : Site) (site_id : String) (passed : Bool)
      → check_session env r site site_id passed w
        ≡ check_found env r site site_id passed w
            (if s.site_id == site_id then existing s else foreign)
  unfolding check_session find_session get_session
  check_session_known site site_id passed =
      let named : (session_id_of r == "") ≡ false = ground (arith, eq_iff (session_id_of r) "") in
      rw (check_session, find_session, named, get_session, known) refl

  admitted-IsServed :
      (site : Site) (j : String)
      → IsAdmitted env r body w s site
      → IsServed env r (says_passed body) w s site j (check_request env r body w)
  unfolding check_found
  admitted-IsServed site j a =
      let site_id = header "X-Site-ID" r in
      let decided : check_found env r site site_id (says_passed body) w
            (if s.site_id == site_id then existing s else foreign)
          ≡ decide env r site (says_passed body) [] (session_id_of r) s.risk_score w =
        rw ((eq_iff s.site_id site_id).1 a.own) refl in
      rw
        (check_request_for env r body w site a.for
          ∙ check_site_open env r body site w ((eq_iff site.status "active").1 a.active) a.free
          ∙ check_body_readable env r body site site_id w a.readable
          ∙ check_session_known site site_id (says_passed body)
          ∙ decided)
        (decide-IsServed env r site (says_passed body) w s j known)

  answered_body :
      (site : Site) (site_id : String)
      → (check_body env r body site site_id w).1.status ≡ 200
      → is_readable body ≡ true
  unfolding check_body
  answered_body site site_id served = ground arith

  answered_own :
      (site : Site) (site_id : String) (passed : Bool)
      → (check_session env r site site_id passed w).1.status ≡ 200
      → s.site_id ≡ site_id
  unfolding check_found
  answered_own site site_id passed served = elim (Bool-cases (s.site_id == site_id)) [
    | inl own ↦ (eq_iff s.site_id site_id).0 own
    | inr other ↦
        let barred : (check_found env r site site_id passed w
              (if s.site_id == site_id then existing s else foreign)).1.status
            ≡ 403 =
          rw other refl in
        let refused = ap (λ x. x.1.status) (check_session_known site site_id passed) ∙ barred in
        ground arith
  ]

  answered_site :
      (site : Site)
      → IsFor env r w site
      → (check_site env r body site w).1.status ≡ 200
      → IsAdmitted env r body w s site
  unfolding check_site
  answered_site site for served = elim (Bool-cases (is_active_site site)) [
    | inr inactive ↦ ground arith
    | inl active ↦
        elim (Bool-cases (
          is_listed
            (is_blacklisted env.faults env.now (header "X-Site-ID" r) (get_real_ip r) w.db))) [
              | inl listed ↦ ground arith
              | inr free ↦
                  let site_id = header "X-Site-ID" r in
                  let at_body =
                    ap (λ x. x.1.status) (check_site_open env r body site w active free) in
                  let readable = answered_body site site_id (sym at_body ∙ served) in
                  let at_session =
                    ap (λ x. x.1.status) (check_body_readable env r body site site_id w readable) in
                  record {
                    for = for;
                    active = (eq_iff site.status "active").0 active;
                    free = free;
                    readable = readable;
                    own =
                        answered_own site site_id (says_passed body)
                          (sym at_session ∙ sym at_body ∙ served);
                  }
            ]
  ]

  check_preflight-status : (check_preflight env r w).status ≡ 204
  unfolding check_preflight
  check_preflight-status = elim (Option-cases (preflight_site env r w)) [
    | inl none_there ↦ rw (check_preflight, none_there) refl
    | inr (site, there) ↦ rw (check_preflight, there) refl
  ]

  answered_request :
      (check_request env r body w).1.status ≡ 200 → (site : Site) × IsAdmitted env r body w s site
  unfolding check_request
  answered_request served = elim (Bool-cases (r.method == "OPTIONS")) [
    | inl asked ↦ ground (arith, check_preflight-status)
    | inr method ↦ elim (Bool-cases (header "X-Site-ID" r == "")) [
      | inl unnamed ↦ ground arith
      | inr named ↦
          elim (Result-cases (get_site env.floats env.faults (header "X-Site-ID" r) w.db)) [
            | inl (e, missing) ↦ ground arith
            | inr (site, known_site) ↦
                let for : IsFor env r w site = record {
                  method = method;
                  named = named;
                  known = known_site;
                } in
                let at_site = ap (λ x. x.1.status) (check_request_for env r body w site for) in
                (site, answered_site site for (sym at_site ∙ served))
          ]
    ]
  ]

-- A request that sends the identifier of a session which is stored is answered by the risk of the
-- session exactly when it is for an active site, from an address that is not blacklisted there, with
-- a body that can be read, and the session is one of the site. The answer has status 200 and says
-- block from 80, captcha from 50, and allow below; but if the body says that a CAPTCHA was passed it
-- says allow, and the risk is set to 0, whatever it was and whether or not the session is blocked.
-- The session's activity and its expiry are renewed for 30 minutes, no other session changes, and the
-- tables stay as they are. Any other such request has another status and changes nothing.
pub check_request_existing :
    (env : Env) (r : Request) (body : Body CheckBody) (w : World) (s : ActiveSession) (j : String)
    → session_id_of r ≢ ""
    → lookup (session_id_of r) w.sessions ≡ some s
    → ((site : Site) × IsAdmitted env r body w s site
        × IsServed env r (says_passed body) w s site j (check_request env r body w))
      ⊎ ((¬ ((site : Site) × IsAdmitted env r body w s site))
          × ((check_request env r body w).1.status ≢ 200)
          × ((check_request env r body w).0 ≡ w))
check_request_existing env r body w s j given known =
    elim (Bool-cases (eqb (check_request env r body w).1.status 200)) [
      | inl served ↦
          let (site, a) = answered_request env r body w s given known (ground arith) in
          inl (site, a, admitted-IsServed env r body w s given known site j a)
      | inr refused ↦
          let other : (check_request env r body w).1.status ≢ 200 = ground arith in
          inr (
            λ (site, a). other (
                Answers-status r site (says_passed body) s.risk_score (check_request env r body w).1
                  (admitted-IsServed env r body w s given known site j a).answer),
            other,
            check_request_refused env r body w other,
          )
    ]

-- ===== src/Detector/FreshRisk.antt =====
-- backend/handlers makes a detector for each analysis: what such an analysis computes and leaves.
use human_guard.Base.{
  le→leb, le→ltb_false, codes, byte_len, ℕ, ◌≤◌, String, ◌≡◌, ap, ◌∙◌, true, false, some, [], arith,
  ◌==◌, leb, if◌then◌else◌, lookup,
}
use human_guard.Errors.{ok}
use human_guard.Clock.{Time}
use human_guard.Session.{ActiveSession}
use human_guard.Sites.{
  get_site_settings, is_blacklisted, upsert_blacklist, select_blacklist, Faults,
}
use human_guard.Sites.Blacklist.{HasUniquePairs}
use human_guard.World.{World, Env}
use human_guard.Detector.{
  Detector, new_detector, cached_result, verdict, blacklisted_result, is_listed, score_request,
  prefilter_session, prefilter, analyzed, conclude, analyze_result, analyze_and_update,
}
use human_guard.Detector.Scores.{headless_score, rate_limit_score}
use human_guard.Detector.Headless.{headless_score-le}
use human_guard.Detector.RateWindow.{rate_limit_score_lem}
use human_guard.Detector.Deep.{deep_filter}
use human_guard.Detector.DeepRisk.{deep_filter_bounds}
use human_guard.Detector.Effects.{
  settled, get_session-some, conclude_lem, lookup-conclude, conclude_blacklists,
}

-- The risk that an analysis by a new detector gives to a session.
unfoldable pub user_agent_risk : Env → ActiveSession → String → World → ℕ
user_agent_risk env s ua w =
    if (get_site_settings env.floats env.faults s.site_id w.db).analyzer.headless_detection
    then headless_score env.lower ua
    else 0

unfoldable pub fresh_risk : Env → String → ActiveSession → String → String → World → ℕ
fresh_risk env id s ip ua w =
    if is_listed (is_blacklisted env.faults env.now s.site_id ip w.db)
    then 100
    else if leb 70 (user_agent_risk env s ua w)
    then user_agent_risk env s ua w
    else deep_filter env.floats env.lower id (user_agent_risk env s ua w) w.sessions

pub user_agent_risk-le :
    (env : Env) (s : ActiveSession) (ua : String) (w : World) → user_agent_risk env s ua w ≤ 100
unfolding user_agent_risk
user_agent_risk-le env s ua w = ground (arith, headless_score-le env.lower ua)

pub fresh_risk-le :
    (env : Env) (id : String) (s : ActiveSession) (ip ua : String) (w : World)
    → fresh_risk env id s ip ua w ≤ 100
unfolding fresh_risk
fresh_risk-le env id s ip ua w =
    let r = user_agent_risk env s ua w in
    let small = user_agent_risk-le env s ua w in
    ground (arith, small, deep_filter_bounds env.floats env.lower id r w.sessions small)

-- A detector that has seen no request gives no points for the rate.
rate_limit_score-new : (now : Time) (ip : String) → (rate_limit_score now ip []).1 ≡ 0
unfolding lookup
rate_limit_score-new now ip = rate_limit_score_lem now ip []

score_request-new :
    (env : Env) (s : ActiveSession) (ip ua : String) (w : World)
    → (score_request env
        (get_site_settings env.floats env.faults s.site_id w.db).analyzer
        ip
        ua
        new_detector).1
      ≡ user_agent_risk env s ua w
unfolding score_request user_agent_risk
score_request-new env s ip ua w = ground (arith, rate_limit_score-new env.now ip)

prefilter-new :
    (env : Env) (id ip ua : String) (w : World) (s : ActiveSession)
    → lookup id w.sessions ≡ some s
    → (prefilter env id ip ua w new_detector).1
      ≡ ok (
          if is_listed (is_blacklisted env.faults env.now s.site_id ip w.db)
          then blacklisted_result
          else verdict (user_agent_risk env s ua w))
unfolding prefilter prefilter_session cached_result lookup
prefilter-new env id ip ua w s e =
    ground (arith, get_session-some id w.sessions s e, score_request-new env s ip ua w)

analyze_result-new :
    (env : Env) (id ip ua : String) (w : World) (d : Detector) (s : ActiveSession)
    → analyze_result env id w d (
        ok (
          if is_listed (is_blacklisted env.faults env.now s.site_id ip w.db)
          then blacklisted_result
          else verdict (user_agent_risk env s ua w)))
      ≡ conclude env id (fresh_risk env id s ip ua w) w d
unfolding analyze_result fresh_risk
analyze_result-new env id ip ua w d s = ground arith

pub analyze_and_update-conclude :
    (env : Env) (id ip ua : String) (w : World) (s : ActiveSession)
    → 8 ≤ byte_len (codes id)
    → lookup id w.sessions ≡ some s
    → analyze_and_update env id ip ua w new_detector
      ≡ conclude env id (fresh_risk env id s ip ua w) w (prefilter env id ip ua w new_detector).0
unfolding analyze_and_update
analyze_and_update-conclude env id ip ua w s long e =
    let d = (prefilter env id ip ua w new_detector).0 in
    rw (le→ltb_false (byte_len (codes id)) 8 long) (
      ap (analyze_result env id w d) (prefilter-new env id ip ua w s e)
      ∙ analyze_result-new env id ip ua w d s)

-- An analysis by a new detector, as the handlers start it, of a session that is there, under an
-- identifier of at least 8 bytes, always completes. It stores the risk that the blacklist, the user
-- agent and the metrics give, without the rate; a risk of 80 or more also blocks the session; and
-- no other session changes. The risk stored is at most 100.
pub analyze_and_update-new :
    (env : Env) (id j ip ua : String) (w : World) (s : ActiveSession)
    → 8 ≤ byte_len (codes id)
    → lookup id w.sessions ≡ some s
    → ((analyze_and_update env id ip ua w new_detector).outcome ≡ analyzed)
      × (lookup j (analyze_and_update env id ip ua w new_detector).world.sessions ≡ (
          if id == j then some (settled (fresh_risk env id s ip ua w) s) else lookup j w.sessions))
      × (fresh_risk env id s ip ua w ≤ 100)
analyze_and_update-new env id j ip ua w s long e =
    let final = fresh_risk env id s ip ua w in
    let d = (prefilter env id ip ua w new_detector).0 in
    let run = analyze_and_update-conclude env id ip ua w s long e in
    (
      ap (λ a. a.outcome) run ∙ ap (λ a. a.outcome) (conclude_lem env id final w d s e),
      ap (λ a. lookup j a.world.sessions) run ∙ lookup-conclude env id final w d s e j,
      fresh_risk-le env id s ip ua w,
    )

-- When an analysis by a new detector ends at 80 or more and the statements are not refused, the
-- address that the session has on record is on the site's blacklist right after it, and that at
-- whatever later time it is looked up. No address stands twice on a site's blacklist before, and the
-- session's identifier has at least 8 bytes.
pub analyze_and_update_blacklists :
    (env : Env) (check : Faults) (id ip ua : String) (w : World) (s : ActiveSession) (later : Time)
    → 8 ≤ byte_len (codes id)
    → lookup id w.sessions ≡ some s
    → 80 ≤ fresh_risk env id s ip ua w
    → env.faults upsert_blacklist ≡ false
    → check select_blacklist ≡ false
    → HasUniquePairs w.db.blacklist
    → is_blacklisted check later s.site_id s.ip
        (analyze_and_update env id ip ua w new_detector).world.db
      ≡ ok true
analyze_and_update_blacklists env check id ip ua w s later long e high up sel u =
    ap (λ a. is_blacklisted check later s.site_id s.ip a.world.db)
      (analyze_and_update-conclude env id ip ua w s long e)
    ∙ conclude_blacklists env id (fresh_risk env id s ip ua w) w
        (prefilter env id ip ua w new_detector).0 s e check later (le→leb _ _ high) up sel u

-- A session whose request comes from a blacklisted address is given the risk 100, whatever its
-- user agent and its metrics.
pub fresh_risk_blacklisted :
    (env : Env) (id ip ua : String) (w : World) (s : ActiveSession)
    → is_blacklisted env.faults env.now s.site_id ip w.db ≡ ok true
    → fresh_risk env id s ip ua w ≡ 100
unfolding fresh_risk
fresh_risk_blacklisted env id ip ua w s e = rw e

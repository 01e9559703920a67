-- ===== src/Behavior/OnDemand.antt =====
-- An analysis that a user asks for: it is started without an address and without a user agent.
use human_guard.Http.{int, flag, write_json}
use human_guard.Base.{
  ◌||◌, leb, [], ◌∷◌, codes, byte_len, ℕ, ◌≤◌, String, ◌≡◌, refl, ◌∙◌, true, false, some, arith,
  ◌==◌, eq_refl, lookup, ap, inl, inr, eq_iff, Bool-cases,
}
use human_guard.Session.{ActiveSession}
use human_guard.Sites.{get_site_settings}
use human_guard.World.{World, Env}
use human_guard.Detector.{new_detector, analyzed, Analysis, analyze_and_update}
use human_guard.Detector.Scores.{
  headless_score, lower_score, headless_total, names_platform, indicator_score,
}
use human_guard.Detector.DeepRisk.{deep_filter_bounds}
use human_guard.Detector.Effects.{settled, get_session-some}
use human_guard.Detector.FreshRisk.{
  fresh_risk, user_agent_risk, analyze_and_update-new, user_agent_risk-le,
}
use human_guard.Behavior.{replied, analysis_answer, answer_analysis, trigger_analysis}

answer_analysis_lem :
    (id : String) (a : Analysis) (s : ActiveSession)
    → a.outcome ≡ analyzed
    → lookup id a.world.sessions ≡ some s
    → answer_analysis id a ≡ (a.world, replied (analysis_answer s))
unfolding answer_analysis
answer_analysis_lem id a s done found =
    rw (done, get_session-some id a.world.sessions s found, answer_analysis) refl

has_name : (id : String) → 8 ≤ byte_len (codes id) → (id == "") ≡ false
has_name id long = elim (Bool-cases (id == "")) [
  | inl e ↦ ground (arith, ap (λ x. byte_len (codes x)) ((eq_iff id "").0 e))
  | inr e ↦ e
]

trigger_analysis_runs :
    (env : Env) (id user_id : String) (w : World)
    → 8 ≤ byte_len (codes id)
    → (user_id == "") ≡ false
    → trigger_analysis env id user_id w
      ≡ answer_analysis id (analyze_and_update env id "" "" w new_detector)
unfolding trigger_analysis
trigger_analysis_runs env id user_id w long signed =
    rw (has_name id long, trigger_analysis) (rw (signed, trigger_analysis) refl)

settled_answer :
    (risk : ℕ) (s : ActiveSession)
    → analysis_answer (settled risk s)
      ≡ write_json [] [] 200
          (("risk_score", int risk) ∷ ("is_blocked", flag (leb 80 risk || s.is_blocked)) ∷ [])
settled_answer risk s = elim (Bool-cases (leb 80 risk)) [
  | inl high ↦ rw high refl
  | inr low ↦ rw low refl
]

-- A signed-in user's analysis of a session that is there, under an identifier of at least 8 bytes,
-- always completes. It is answered with status 200, the risk of the session for an empty address and an
-- empty user agent, and whether this risk is 80 or more or the session was blocked before; and the
-- session is stored with this risk, blocked and inactive if the risk is 80 or more.
pub trigger_analysis_lem :
    (env : Env) (id user_id : String) (w : World) (s : ActiveSession)
    → 8 ≤ byte_len (codes id)
    → (user_id == "") ≡ false
    → lookup id w.sessions ≡ some s
    → let risk = fresh_risk env id s "" "" w in
      ((trigger_analysis env id user_id w).1
        ≡ replied (
            write_json [] [] 200
              (("risk_score", int risk) ∷ ("is_blocked", flag (leb 80 risk || s.is_blocked)) ∷ [])))
      × (lookup id (trigger_analysis env id user_id w).0.sessions ≡ some (settled risk s))
trigger_analysis_lem env id user_id w s long signed found =
    let (done, there, _) = analyze_and_update-new env id id "" "" w s long found in
    let there' = there ∙ rw (eq_refl id) refl in
    rw
      (trigger_analysis_runs env id user_id w long signed
        ∙ answer_analysis_lem id (analyze_and_update env id "" "" w new_detector)
            (settled (fresh_risk env id s "" "" w) s) done there')
      (ap (λ x. replied x) (settled_answer (fresh_risk env id s "" "" w) s), there')

headless_score_empty : (lower : ℕ → ℕ) → headless_score lower "" ≡ 35
unfolding headless_score lower_score headless_total names_platform indicator_score
headless_score_empty lower = refl

-- While headless detection is on for the site, the risk that an analysis without a user agent gives
-- is never below 35: the missing user agent counts as a short one that names no platform.
pub fresh_risk_no_agent :
    (env : Env) (id ip : String) (w : World) (s : ActiveSession)
    → (get_site_settings env.floats env.faults s.site_id w.db).analyzer.headless_detection ≡ true
    → 35 ≤ fresh_risk env id s ip "" w
unfolding fresh_risk user_agent_risk
fresh_risk_no_agent env id ip w s on =
    let given = headless_score_empty env.lower in
    let kept =
      deep_filter_bounds env.floats env.lower id (user_agent_risk env s "" w) w.sessions
        (user_agent_risk-le env s "" w) in
    ground arith

-- ===== src/Detector/DeepRisk.antt =====
-- `DeepFilter` only adds to the risk, and ends at most at 100.
use Prim.Native.Nat.{min}
use human_guard.Session.{get_session_metrics, Sessions}
use human_guard.Errors.{ok, err}
use human_guard.Base.{
  some, ◌∷◌, String, Option, Dict, ℕ, ◌+◌, ◌≤◌, Bool, ◌≡◌, arith, ap, ◌∙◌, none, [],
}
use human_guard.Value.{Value, Fields, FloatOps}
use human_guard.Detector.Deep.{
  clamp_risk, section, on_section, metrics_filter, metrics_risk, deep_filter, bump, rate_risk,
  movement_risk, counters_risk, fingerprint_risk, timing_risk,
}

bump_shift : (test : Bool) (points risk : ℕ) → bump test points risk ≡ risk + bump test points 0
unfolding bump
bump_shift test points risk = ground arith

bump-le : (test : Bool) (points : ℕ) → bump test points 0 ≤ points
unfolding bump
bump-le test points = ground arith

ruleset bumps = (arith, bump_shift, bump-le)

module _ (f : FloatOps) where
  rate_risk_shift :
      (events duration risk : ℕ)
      → (rate_risk f events duration risk ≡ risk + rate_risk f events duration 0)
        × (rate_risk f events duration 0 ≤ 45)
  unfolding rate_risk
  rate_risk_shift events duration risk = omega bumps

  movement_risk_shift :
      (a b c d e risk : ℕ)
      → (movement_risk f a b c d e risk ≡ risk + movement_risk f a b c d e 0)
        × (movement_risk f a b c d e 0 ≤ 60)
  unfolding movement_risk
  movement_risk_shift a b c d e risk = omega bumps

  counters_risk_shift :
      (c : Fields) (risk : ℕ)
      → (counters_risk f c risk ≡ risk + counters_risk f c 0) × (counters_risk f c 0 ≤ 105)
  unfolding counters_risk
  counters_risk_shift c risk = ground (arith)

  timing_risk_shift :
      (c : Fields) (risk : ℕ)
      → (timing_risk f c risk ≡ risk + timing_risk f c 0) × (timing_risk f c 0 ≤ 20)
  unfolding timing_risk
  timing_risk_shift c risk = omega bumps

  fingerprint_risk_shift :
      (lower : ℕ → ℕ) (c : Fields) (risk : ℕ)
      → (fingerprint_risk f lower c risk ≡ risk + fingerprint_risk f lower c 0)
        × (fingerprint_risk f lower c 0 ≤ 25)
  unfolding fingerprint_risk
  fingerprint_risk_shift lower c risk = omega bumps

-- What the metrics of a session add, whatever the risk before.
abbrev pub metrics_score : FloatOps → (ℕ → ℕ) → Dict Value → ℕ
metrics_score f lower metrics = metrics_risk f lower metrics 0

on_section_shift :
    (o : Option Fields) (g : Fields → ℕ → ℕ) (top risk : ℕ)
    → ((c : Fields) (r : ℕ) → (g c r ≡ r + g c 0) × (g c 0 ≤ top))
    → (on_section o g risk ≡ risk + on_section o g 0) × (on_section o g 0 ≤ top)
on_section_shift none g top risk h = omega arith
on_section_shift (some c) g top risk h = h c risk

clamp_risk_lem : (risk : ℕ) → clamp_risk risk ≡ min 100 risk
clamp_risk_lem risk = ground arith

module _ (f : FloatOps) (lower : ℕ → ℕ) where
  metrics_risk_shift :
      (metrics : Dict Value) (risk : ℕ)
      → (metrics_risk f lower metrics risk ≡ risk + metrics_score f lower metrics)
        × (metrics_score f lower metrics ≤ 150)
  unfolding metrics_risk
  metrics_risk_shift metrics risk =
      let c = λ (r : ℕ).
        on_section_shift (section metrics "counters") (counters_risk f) 105 r
          (counters_risk_shift f) in
      let g = λ (r : ℕ).
        on_section_shift (section metrics "fingerprint") (fingerprint_risk f lower) 25 r
          (fingerprint_risk_shift f lower) in
      let t = λ (r : ℕ).
        on_section_shift (section metrics "timing") (timing_risk f) 20 r (timing_risk_shift f) in
      let c₀ = on_section (section metrics "counters") (counters_risk f) 0 in
      let c₁ = on_section (section metrics "counters") (counters_risk f) risk in
      let g₀ = on_section (section metrics "fingerprint") (fingerprint_risk f lower) c₀ in
      let g₁ = on_section (section metrics "fingerprint") (fingerprint_risk f lower) c₁ in
      (omega (arith, c risk, g c₀, g c₁, t g₀, t g₁), omega (arith, c risk, g c₀, t g₀))

  -- A session with metrics ends at the risk before and the score of its metrics together, cut off
  -- at 100, and the score of the metrics is at most 150 however large the counters are.
  pub metrics_filter_lem :
      (m : String × Value) (ms : Dict Value) (risk : ℕ)
      → (metrics_filter f lower (m ∷ ms) risk ≡ min 100 (risk + metrics_score f lower (m ∷ ms)))
        × (metrics_score f lower (m ∷ ms) ≤ 150)
  unfolding metrics_filter
  metrics_filter_lem m ms risk =
      let shift = metrics_risk_shift (m ∷ ms) risk in
      (clamp_risk_lem _ ∙ ap (min 100) shift.0, shift.1)

  metrics_filter_bounds :
      (metrics : Dict Value) (risk : ℕ)
      → risk ≤ 100
      → (risk ≤ metrics_filter f lower metrics risk) × (metrics_filter f lower metrics risk ≤ 100)
  unfolding metrics_filter
  metrics_filter_bounds [] risk h = omega arith
  metrics_filter_bounds (m ∷ ms) risk h = omega (arith, metrics_filter_lem m ms risk)

  -- The deep analysis never lowers a risk of at most 100, and never takes it above 100.
  pub deep_filter_bounds :
      (id : String) (risk : ℕ) (sessions : Sessions)
      → risk ≤ 100
      → (risk ≤ deep_filter f lower id risk sessions) × (deep_filter f lower id risk sessions ≤ 100)
  unfolding deep_filter
  deep_filter_bounds id risk sessions h =
      elim (get_session_metrics id sessions)
        as (λ r.
          (risk ≤ elim r [ err e ↦ risk | ok metrics ↦ metrics_filter f lower metrics risk ])
          × (elim r [ err e ↦ risk | ok metrics ↦ metrics_filter f lower metrics risk ] ≤ 100)) [
            | err e ↦ omega arith
            | ok metrics ↦ metrics_filter_bounds metrics risk h
          ]

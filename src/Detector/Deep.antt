-- ===== src/Detector/Deep.antt =====
-- backend/detector/detector.go: `DeepFilter`, over the metrics of a session.
use human_guard.Base.{
  Bool, ℕ, ◌+◌, String, ◌&&◌, Option, none, some, [], ◌∷◌, Dict, lookup, ltb, if◌then◌else◌, codes,
  contains, to_lower,
}
use human_guard.Errors.{ok, err}
use human_guard.Value.{Value, FloatOps, Fields, get_field, as_object, as_string, as_float}
use human_guard.Session.{Sessions, get_session_metrics}

-- `if test { risk += points }`.
unfoldable pub bump : Bool → ℕ → ℕ → ℕ
bump test points risk = if test then risk + points else risk

module _ (f : FloatOps) where
  open f use {of_int, lt, eq, add, div}

  abbrev pub counter : String → Fields → ℕ
  counter name counters = as_float f (get_field name counters)

  -- The two tests of the event rate, made when the duration is positive.
  unfoldable pub rate_risk : ℕ → ℕ → ℕ → ℕ
  unfolding bump
  rate_risk events duration risk =
      let per_minute = div events (div duration (of_int 60)) in
      bump (lt per_minute (of_int 5) && lt (of_int 60) duration) 30
        (bump (lt (of_int 300) per_minute) 15 risk)

  -- The three tests of single counters.
  unfoldable pub movement_risk : ℕ → ℕ → ℕ → ℕ → ℕ → ℕ → ℕ
  unfolding bump
  movement_risk mouse_moves clicks scrolls keystrokes duration risk =
      bump (eq keystrokes (of_int 0) && lt (of_int 100) mouse_moves) 20 (
        bump (eq clicks (of_int 0) && lt (of_int 20) scrolls) 25
          (bump (lt (of_int 1000) mouse_moves && lt duration (of_int 30)) 15 risk))

  unfoldable pub counters_risk : Fields → ℕ → ℕ
  unfolding rate_risk movement_risk
  counters_risk counters risk =
      let mouse_moves = counter "mouse_move" counters in
      let clicks = counter "click" counters in
      let scrolls = counter "scroll" counters in
      let keystrokes = counter "keydown" counters in
      let duration = counter "duration_sec" counters in
      let moved = movement_risk mouse_moves clicks scrolls keystrokes duration risk in
      let events = add (add (add mouse_moves clicks) scrolls) keystrokes in
      if lt (of_int 0) duration then rate_risk events duration moved else moved

  unfoldable pub fingerprint_risk : (ℕ → ℕ) → Fields → ℕ → ℕ
  unfolding bump
  fingerprint_risk lower fingerprint =
      let webgl = as_string (get_field "webgl_renderer" fingerprint) in
      bump (contains (to_lower lower (codes webgl)) (codes "swiftshader")) 25

  unfoldable pub timing_risk : Fields → ℕ → ℕ
  unfolding bump
  timing_risk timing =
      let load_time = counter "load_time_ms" timing in
      bump (lt (of_int 0) load_time && lt load_time (of_int 100)) 20

-- `metrics[key].(map[string]interface{})`, and what is done with it if it is one.
unfoldable pub section : Dict Value → String → Option Fields
section metrics key = elim (lookup key metrics) [ none ↦ none | some v ↦ as_object v ]

abbrev pub on_section : Option Fields → (Fields → ℕ → ℕ) → ℕ → ℕ
on_section none g risk = risk
on_section (some fs) g risk = g fs risk

-- The two clamps; a risk below 0 does not arise in ℕ.
abbrev pub clamp_risk : ℕ → ℕ
clamp_risk risk = if ltb 100 risk then 100 else risk

unfoldable pub metrics_risk : FloatOps → (ℕ → ℕ) → Dict Value → ℕ → ℕ
metrics_risk f lower metrics risk =
    let r₁ = on_section (section metrics "counters") (counters_risk f) risk in
    let r₂ = on_section (section metrics "fingerprint") (fingerprint_risk f lower) r₁ in
    on_section (section metrics "timing") (timing_risk f) r₂

-- No metrics, or none to be had, leaves the risk as it was, also above 100.
unfoldable pub metrics_filter : FloatOps → (ℕ → ℕ) → Dict Value → ℕ → ℕ
metrics_filter f lower [] risk = risk
metrics_filter f lower (m ∷ ms) risk = clamp_risk (metrics_risk f lower (m ∷ ms) risk)

unfoldable pub deep_filter : FloatOps → (ℕ → ℕ) → String → ℕ → Sessions → ℕ
deep_filter f lower id risk sessions = elim (get_session_metrics id sessions) [
  | err e ↦ risk
  | ok metrics ↦ metrics_filter f lower metrics risk
]

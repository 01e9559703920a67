-- ===== src/Detector/Headless.antt =====
-- What the score of a user agent says: each indicator counts 25, once for each that occurs.
use Prim.Native.Nat.{min}
use human_guard.Base.{
  ◌∙◌, ℕ, ◌+◌, ◌*◌, ◌≤◌, String, Bool, true, List, [], ◌∷◌, ◌++◌, ◌≡◌, ◌↔◌, refl, inl, inr, arith,
  count_if, ltb, if◌then◌else◌, codes, has_prefix, contains, to_lower, byte_len, Bool-cases,
}
use human_guard.Detector.Scores.{
  headless_indicators, headless_total, indicator_score, names_platform, lower_score, headless_score,
}

pub indicators_in : List ℕ → ℕ
indicators_in ua = count_if (λ ind. contains ua (codes ind)) headless_indicators

indicator_score_lem :
    (ua : List ℕ) (inds : List String) (score : ℕ)
    → indicator_score ua inds score ≡ score + 25 * count_if (λ ind. contains ua (codes ind)) inds
unfolding indicator_score
indicator_score_lem ua [] score = omega arith
indicator_score_lem ua (ind ∷ inds) score = elim (Bool-cases (contains ua (codes ind))) [
  | inl found ↦
      rw (found, indicator_score) (omega (arith, indicator_score_lem ua inds (score + 25)))
  | inr absent ↦ rw (absent, indicator_score) (indicator_score_lem ua inds score)
]

abbrev pub length_risk : List ℕ → ℕ
length_risk ua = if ltb (byte_len ua) 20 then 20 else 0

abbrev pub platform_risk : List ℕ → ℕ
platform_risk ua = if names_platform ua then 0 else 15

headless_total_lem :
    (score len : ℕ) (named : Bool)
    → headless_total score len named
      ≡ min 100 (score + (if ltb len 20 then 20 else 0) + (if named then 0 else 15))
unfolding headless_total
headless_total_lem score len named = ground arith

lower_score_lem :
    (ua : List ℕ)
    → lower_score ua ≡ min 100 (25 * indicators_in ua + length_risk ua + platform_risk ua)
unfolding lower_score indicators_in
lower_score_lem ua =
    rw (indicator_score_lem ua headless_indicators 0) (
      headless_total_lem (0 + 25 * indicators_in ua) (byte_len ua) (names_platform ua)
      ∙ omega arith)

-- The score of a user agent, read in lower case, is 25 for each indicator that occurs in it, 20
-- more if it has fewer than 20 bytes, 15 more if it names no platform, and at most 100.
pub headless_score_lem :
    (lower : ℕ → ℕ) (user_agent : String)
    → headless_score lower user_agent
      ≡ min 100 (
          25 * indicators_in (to_lower lower (codes user_agent))
          + length_risk (to_lower lower (codes user_agent))
          + platform_risk (to_lower lower (codes user_agent)))
unfolding headless_score
headless_score_lem lower user_agent = lower_score_lem (to_lower lower (codes user_agent))

pub headless_score-le :
    (lower : ℕ → ℕ) (user_agent : String) → headless_score lower user_agent ≤ 100
headless_score-le lower user_agent = omega (arith, headless_score_lem lower user_agent)

-- A user agent scores nothing exactly if no indicator occurs in it, it has at least 20 bytes, and
-- it names a platform.
pub headless_score-eq-zero_iff :
    (lower : ℕ → ℕ) (user_agent : String)
    → (headless_score lower user_agent ≡ 0) ↔ (
        (indicators_in (to_lower lower (codes user_agent)) ≡ 0)
        × (20 ≤ byte_len (to_lower lower (codes user_agent)))
        × (names_platform (to_lower lower (codes user_agent)) ≡ true))
headless_score-eq-zero_iff lower user_agent =
    let closed = headless_score_lem lower user_agent in
    (
      λ e. (ground (arith, closed), ground (arith, closed), ground (arith, closed)),
      λ h. ground (arith, closed),
    )

two_indicators :
    (ua : List ℕ)
    → contains ua (codes "headlesschrome") ≡ true
    → contains ua (codes "headless") ≡ true
    → 2 ≤ indicators_in ua
unfolding indicators_in
two_indicators ua h k = rw (h, k) (omega arith)

has_prefix-append : (s t u : List ℕ) → has_prefix s (t ++ u) ≡ true → has_prefix s t ≡ true
has_prefix-append s [] u h = refl
has_prefix-append [] (c ∷ t) u h = h
has_prefix-append (d ∷ s) (c ∷ t) u h = ground (arith, has_prefix-append s t u)

contains-append : (s t u : List ℕ) → contains s (t ++ u) ≡ true → contains s t ≡ true
contains-append [] t u h = has_prefix-append [] t u h
contains-append (d ∷ s) t u h = ground (arith, has_prefix-append (d ∷ s) t u, contains-append s t u)

-- A user agent that names HeadlessChrome, in any case, counts for two indicators and scores at
-- least 50.
pub headless_score-headlesschrome :
    (lower : ℕ → ℕ) (user_agent : String)
    → contains (to_lower lower (codes user_agent)) (codes "headlesschrome") ≡ true
    → 50 ≤ headless_score lower user_agent
headless_score-headlesschrome lower user_agent h =
    let ua = to_lower lower (codes user_agent) in
    let both = two_indicators ua h (contains-append ua (codes "headless") (codes "chrome") h) in
    omega (arith, headless_score_lem lower user_agent)

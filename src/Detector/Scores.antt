-- ===== src/Detector/Scores.antt =====
-- backend/detector/detector.go: `headlessScore` and `rateLimitScore`.
use human_guard.Base.{
  ℕ, ◌+◌, String, Bool, not, ◌||◌, Option, none, some, List, [], ◌∷◌, ◌++◌, Dict, lookup, insert,
  keep, length, ltb, if◌then◌else◌, codes, contains, to_lower, byte_len,
}
use human_guard.Clock.{Time, minute, since}

abbrev pub headless_indicators : List String
headless_indicators =
    "headless" ∷ "headlesschrome" ∷ "phantomjs" ∷ "selenium" ∷ "webdriver" ∷ "puppeteer"
    ∷ "playwright" ∷ "cypress" ∷ []

-- The loop over the indicators.
unfoldable pub indicator_score : List ℕ → List String → ℕ → ℕ
indicator_score ua [] score = score
indicator_score ua (ind ∷ inds) score =
    indicator_score ua inds (if contains ua (codes ind) then score + 25 else score)

unfoldable pub names_platform : List ℕ → Bool
names_platform ua =
    contains ua (codes "windows")
    || contains ua (codes "mac")
    || contains ua (codes "linux")
    || contains ua (codes "android")
    || contains ua (codes "iphone")
    || contains ua (codes "ipad")

abbrev pub capped : ℕ → ℕ
capped score = if ltb 100 score then 100 else score

-- The two additions after the loop, and the cap.
unfoldable pub headless_total : ℕ → ℕ → Bool → ℕ
headless_total score len named =
    let s₂ = if ltb len 20 then score + 20 else score in
    let s₃ = if not named then s₂ + 15 else s₂ in if ltb 100 s₃ then 100 else s₃

-- The score of a user agent in lower case.
unfoldable pub lower_score : List ℕ → ℕ
lower_score ua =
    headless_total (indicator_score ua headless_indicators 0) (byte_len ua) (names_platform ua)

unfoldable pub headless_score : (ℕ → ℕ) → String → ℕ
headless_score lower user_agent = lower_score (to_lower lower (codes user_agent))

abbrev pub stamps : Option (List Time) → List Time
stamps none = []
stamps (some ts) = ts

-- The window that a call leaves for an address: what is less than a minute old, then the call.
unfoldable pub window : Time → List Time → List Time
window now ts = keep (λ t. ltb (since now t) minute) ts ++ now ∷ []

abbrev pub rate_score : ℕ → ℕ
rate_score count =
    if ltb 100 count then 100 else if ltb 60 count then 50 else if ltb 30 count then 20 else 0

unfoldable pub rate_limit_score : Time → String → Dict (List Time) → Dict (List Time) × ℕ
unfolding window
rate_limit_score now ip counts =
    let clean = window now (stamps (lookup ip counts)) in
    (insert ip clean counts, rate_score (length clean))

-- ===== src/Detector/Tests.antt =====
-- The detector on concrete user agents, request times and sessions.
use human_guard.Base.{ℕ, ◌+◌, ◌≤◌, String, ◌≡◌, refl, true, some, arith, lookup}
use human_guard.Errors.{ok}
use human_guard.Clock.{minute}
use human_guard.Settings.{get_default_settings}
use human_guard.Sites.{is_blacklisted, get_site_settings}
use human_guard.Detector.{new_detector, analyzed, analyze_and_update}
use human_guard.Detector.Scores.{
  headless_score, lower_score, headless_total, names_platform, indicator_score,
}
use human_guard.Detector.Deep.{deep_filter}
use human_guard.Detector.DeepRisk.{deep_filter_bounds}
use human_guard.Detector.Effects.{settled}
use human_guard.Detector.FreshRisk.{
  fresh_risk, user_agent_risk, analyze_and_update-new, analyze_and_update_blacklists,
}
use human_guard.Samples.{env, floats, visitor, visitor_id, store, world, noon, answering}

abbrev robot : String
robot = "Selenium PhantomJS HeadlessChrome"

abbrev browser : String
browser = "Mozilla/5.0 (X11; Linux x86_64)"

abbrev plain : ℕ → ℕ
plain c = c

robot_scores : headless_score plain robot ≡ 100
unfolding headless_score lower_score headless_total names_platform indicator_score
robot_scores = refl

browser_scores : headless_score plain browser ≡ 0
unfolding headless_score lower_score headless_total names_platform indicator_score
browser_scores = refl

deep_filter_bounds_example :
    (40 ≤ deep_filter floats plain visitor_id 40 store)
    × (deep_filter floats plain visitor_id 40 store ≤ 100)
deep_filter_bounds_example = deep_filter_bounds floats plain visitor_id 40 store (omega arith)

analyze_and_update-new_example :
    ((analyze_and_update env visitor_id "198.51.100.7" robot world new_detector).outcome ≡ analyzed)
    × (lookup visitor_id
          (analyze_and_update env visitor_id "198.51.100.7" robot world new_detector).world.sessions
        ≡ some (settled (fresh_risk env visitor_id visitor "198.51.100.7" robot world) visitor))
    × (fresh_risk env visitor_id visitor "198.51.100.7" robot world ≤ 100)
unfolding lookup
analyze_and_update-new_example =
    analyze_and_update-new env visitor_id visitor_id "198.51.100.7" robot world visitor
      (omega arith) refl

robot_risk : fresh_risk env visitor_id visitor "198.51.100.7" robot world ≡ 100
unfolding get_default_settings fresh_risk user_agent_risk is_blacklisted get_site_settings
    headless_score lower_score headless_total names_platform indicator_score
robot_risk = refl

analyze_and_update_blacklists_example :
    is_blacklisted answering
      (noon + minute)
      "shop"
      "198.51.100.7"
      (analyze_and_update env visitor_id "198.51.100.7" robot world new_detector).world.db
    ≡ ok true
unfolding lookup
analyze_and_update_blacklists_example =
    analyze_and_update_blacklists env answering visitor_id "198.51.100.7" robot world visitor
      (noon + minute) (omega arith) refl (omega (arith, robot_risk)) refl refl (tt, tt)

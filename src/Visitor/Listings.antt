-- ===== src/Visitor/Listings.antt =====
-- backend/handlers/visitor_session.go: the listings for a site's owner. The query parameter comes
-- as what `strconv.Atoi` reads off it, where a number below 0 and an error are both `none`: the
-- source treats them alike. The answer is the list that is encoded.
use human_guard.Base.{ℕ, String, Option, none, some, List, ltb, leb, if◌then◌else◌}
use human_guard.Clock.{Time}
use human_guard.Session.{
  ActiveSession, Sessions, SessionStats, get_active_sessions_by_site, get_suspicious_sessions,
  get_session_stats,
}

abbrev pub limit_of : Option ℕ → ℕ
limit_of none = 100
limit_of (some l) = if ltb 0 l then l else 100

unfoldable pub get_sessions_by_site : Time → String → Option ℕ → Sessions → List ActiveSession
get_sessions_by_site now site limit m = get_active_sessions_by_site now site (limit_of limit) m

abbrev pub min_risk_of : Option ℕ → ℕ
min_risk_of none = 60
min_risk_of (some risk) = if leb risk 100 then risk else 60

unfoldable pub list_suspicious_sessions : String → Option ℕ → Sessions → List ActiveSession
list_suspicious_sessions site min_risk m = get_suspicious_sessions site (min_risk_of min_risk) m

unfoldable pub show_session_stats : Time → String → Sessions → SessionStats
show_session_stats now site m = get_session_stats now site m

-- ===== src/Session/Queries.antt =====
-- What the listings and the statistics of the store report.
use human_guard.Base.{
  ℕ, zero, suc, ◌+◌, ◌*◌, ◌≤◌, ◌<◌, String, Bool, true, List, [], ◌∷◌, map, ◌≡◌, refl, inl, inr,
  arith, eq_iff, ◌==◌, ◌&&◌, All, length, count_if, keep, Bool-cases,
}
use human_guard.Clock.{Time}
use human_guard.Session.{
  ActiveSession, Sessions, is_live, gather_active, get_active_sessions_by_site,
  get_suspicious_sessions, SessionStats, tally, add_ip, stats_from, get_session_stats, unique_ips,
}
use human_guard.Session.Lifecycle.{AllCoherent}

abbrev pub take {ℓ} : {A : Type ℓ} → ℕ → List A → List A
take zero xs = []
take (suc n) [] = []
take (suc n) (x ∷ xs) = x ∷ take n xs

abbrev pub on_site : String → String × ActiveSession → Bool
on_site site e = e.1.site_id == site

abbrev pub live_on : Time → String → String × ActiveSession → Bool
live_on now site e = e.1.site_id == site && is_live now e.1

abbrev pub blocked_on : String → String × ActiveSession → Bool
blocked_on site e = e.1.site_id == site && e.1.is_blocked

abbrev pub values : Sessions → List ActiveSession
values m = map (λ e. e.1) m

gather_active_lem :
    (now : Time) (site : String) (limit k n : ℕ) (m : Sessions)
    → limit ≡ n + suc k
    → gather_active now site limit n m ≡ take (suc k) (values (keep (live_on now site) m))
unfolding gather_active
gather_active_lem now site limit k n [] e = refl
gather_active_lem now site limit zero n ((j, s) ∷ m) e =
    ground (arith, gather_active_lem now site limit zero n m e)
gather_active_lem now site limit (suc k) n ((j, s) ∷ m) e = ground (
  arith,
  gather_active_lem now site limit (suc k) n m e,
  gather_active_lem now site limit k (suc n) m (omega arith),
)

-- With a positive limit the listing of a site's active sessions is the first `limit` of those
-- that belong to the site, are active and have not reached their expiry, in the order of the map.
pub get_active_sessions_by_site_lem :
    (now : Time) (site : String) (limit : ℕ) (m : Sessions)
    → 0 < limit
    → get_active_sessions_by_site now site limit m ≡ take limit (values (keep (live_on now site) m))
unfolding get_active_sessions_by_site
get_active_sessions_by_site_lem now site zero m h = elim h [ ]
get_active_sessions_by_site_lem now site (suc k) m h =
    gather_active_lem now site (suc k) k 0 m (omega arith)

-- The statistics in closed form, from any start.
stats_from_counts :
    (now : Time) (site : String) (st : SessionStats) (m : Sessions)
    → ((stats_from now site st m).total ≡ st.total + count_if (on_site site) m)
      × ((stats_from now site st m).active ≡ st.active + count_if (live_on now site) m)
      × ((stats_from now site st m).blocked ≡ st.blocked + count_if (blocked_on site) m)
unfolding stats_from
stats_from_counts now site st [] = omega arith
stats_from_counts now site st ((k, s) ∷ m) = elim (Bool-cases (s.site_id == site)) [
  | inl here ↦ rw here (ground (arith, stats_from_counts now site (tally now s st) m))
  | inr other ↦ rw other (ground (arith, stats_from_counts now site st m))
]

-- Each session that is listed as suspicious belongs to the site, is active and has at least the
-- risk asked for.
pub get_suspicious_sessions-All :
    (site : String) (min_risk : ℕ) (m : Sessions)
    → All
        (λ s. (s.site_id ≡ site) × (min_risk ≤ s.risk_score) × (s.is_active ≡ true))
        (get_suspicious_sessions site min_risk m)
unfolding get_suspicious_sessions
get_suspicious_sessions-All site min_risk [] = tt
get_suspicious_sessions-All site min_risk ((k, s) ∷ m) =
    ground (arith, eq_iff s.site_id site, get_suspicious_sessions-All site min_risk m)

blocked-or-live :
    (now : Time) (site : String) (m : Sessions)
    → AllCoherent m
    → count_if (live_on now site) m + count_if (blocked_on site) m ≤ count_if (on_site site) m
blocked-or-live now site [] h = omega arith
blocked-or-live now site ((k, s) ∷ m) h = ground (arith, blocked-or-live now site m h.1)

abbrev pub empty_stats : SessionStats
empty_stats = record { total = 0; active = 0; blocked = 0; risk_sum = 0; ips = [] }

-- In a store where a session is blocked exactly when it is not active, the statistics of a site
-- count all its sessions, those that are live and those that are blocked, and no session is
-- counted both as live and as blocked.
pub get_session_stats_counts :
    (now : Time) (site : String) (m : Sessions)
    → AllCoherent m
    → ((get_session_stats now site m).total ≡ count_if (on_site site) m)
      × ((get_session_stats now site m).active ≡ count_if (live_on now site) m)
      × ((get_session_stats now site m).blocked ≡ count_if (blocked_on site) m)
      × ((get_session_stats now site m).active + (get_session_stats now site m).blocked
          ≤ (get_session_stats now site m).total)
unfolding get_session_stats
get_session_stats_counts now site m h =
    let counts = stats_from_counts now site empty_stats m in
    let apart = blocked-or-live now site m h in (omega arith, omega arith, omega arith, omega arith)

length-add_ip : (ip : String) (ips : List String) → length (add_ip ip ips) ≤ suc (length ips)
length-add_ip ip ips = ground arith

stats_from_bounds :
    (now : Time) (site : String) (st : SessionStats) (m : Sessions)
    → All (λ e. e.1.risk_score ≤ 100) m
    → length st.ips ≤ st.total
    → st.risk_sum ≤ 100 * st.total
    → (length (stats_from now site st m).ips ≤ (stats_from now site st m).total)
      × ((stats_from now site st m).risk_sum ≤ 100 * (stats_from now site st m).total)
unfolding stats_from
stats_from_bounds now site st [] r a b = (a, b)
stats_from_bounds now site st ((k, s) ∷ m) r a b =
    let here =
      stats_from_bounds now site (tally now s st) m r.1 (omega (arith, length-add_ip s.ip st.ips))
        (omega arith) in
    let other = stats_from_bounds now site st m r.1 a b in
    (ground (arith, here.0, other.0), ground (arith, here.1, other.1))

-- If every score in the store is at most 100, the mean score that the statistics report is at most
-- 100, and there are no more addresses than sessions.
pub get_session_stats_bounds :
    (now : Time) (site : String) (m : Sessions)
    → All (λ e. e.1.risk_score ≤ 100) m
    → (unique_ips (get_session_stats now site m) ≤ (get_session_stats now site m).total)
      × ((get_session_stats now site m).risk_sum ≤ 100 * (get_session_stats now site m).total)
unfolding get_session_stats
get_session_stats_bounds now site m r =
    stats_from_bounds now site empty_stats m r (omega arith) (omega arith)

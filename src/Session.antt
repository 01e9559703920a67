-- ===== src/Session.antt =====
-- backend/storage/session.go: the in-memory store of visitor sessions.
-- A `sync.Map` of pointers is a dictionary; a write through a loaded pointer is `adjust`. The time
-- that an operation reads by `time.Now` is its argument `now`.
pub mod Steps
pub mod Effects
pub mod Lifecycle
pub mod Queries
mod Tests
use human_guard.Base.{
  ℕ, suc, ◌+◌, ◌*◌, String, Bool, true, false, not, ◌&&◌, ◌||◌, Option, none, some, List, [], ◌∷◌,
  map, ◌==◌, Dict, lookup, insert, delete, adjust, keep_values, length, count_if, any_of, keep, leb,
  ltb, if◌then◌else◌, zero, ◌-◌, ◌≤◌, ◌<◌, ◌≡◌, refl, sym, ap, ◌∙◌, ◌≢◌, ◌↔◌, ◌⊎◌, inl, inr, ◌++◌,
  arith, eq_iff, eq_refl, eqb, Bool-cases, Option-cases, All,
}
use human_guard.Errors.{Result, ok, err, session_not_found}
use human_guard.Value.{Value}
use human_guard.Clock.{Time, minute, is_zero, after, before}

pub record ActiveSession : Type 0 where
  pub id : String
  pub site_id : String
  pub ip : String
  pub user_agent : String
  pub device : String
  pub location : String
  pub is_active : Bool
  pub risk_score : ℕ
  pub is_blocked : Bool
  pub captcha_shown : Bool
  pub fingerprint : String
  pub metrics : Dict Value
  pub created_at : Time
  pub last_activity : Time
  pub expires_at : Time

abbrev pub Sessions : Type 0
Sessions = Dict ActiveSession

-- The session that `CreateSession` leaves behind its argument. A nil metrics map and an empty one
-- are both `[]`: the source makes the map before anything writes to it.
abbrev pub started : Time → ActiveSession → ActiveSession
started now s = record s {
  created_at = now;
  last_activity = now;
  expires_at = if is_zero s.expires_at then now + 30 * minute else s.expires_at;
}

unfoldable pub create_session : Time → ActiveSession → Sessions → Sessions
create_session now s m = insert s.id (started now s) m

unfoldable pub get_session : String → Sessions → Result ActiveSession
get_session id m = elim (lookup id m) [ none ↦ err session_not_found | some s ↦ ok s ]

-- The shape of every update: load the pointer, write through it, or report the missing key.
unfoldable pub modify :
    String → (ActiveSession → ActiveSession) → Sessions → Sessions × Result (Unit {0})
modify id f m = elim (lookup id m) [
  | none ↦ (m, err session_not_found)
  | some s ↦ (adjust id f m, ok tt)
]

unfoldable pub update_session_activity : Time → String → Sessions → Sessions × Result (Unit {0})
unfolding modify
update_session_activity now id =
    modify id (λ s. record s { last_activity = now; expires_at = now + 30 * minute })

unfoldable pub deactivate_session : String → Sessions → Sessions × Result (Unit {0})
deactivate_session id m = elim (lookup id m) [
  | none ↦ (m, err session_not_found)
  | some s ↦ (delete id m, ok tt)
]

unfoldable pub block_session : String → Sessions → Sessions × Result (Unit {0})
unfolding modify
block_session id = modify id (λ s. record s { is_blocked = true; is_active = false })

unfoldable pub unblock_session : String → Sessions → Sessions × Result (Unit {0})
unfolding modify
unblock_session id = modify id (λ s. record s { is_blocked = false; is_active = true })

unfoldable pub update_risk_score : String → ℕ → Sessions → Sessions × Result (Unit {0})
unfolding modify
update_risk_score id score = modify id (λ s. record s { risk_score = score })

unfoldable pub mark_captcha_shown : String → Sessions → Sessions × Result (Unit {0})
unfolding modify
mark_captcha_shown id = modify id (λ s. record s { captcha_shown = true })

-- `for k, v := range from { into[k] = v }`.
unfoldable pub merge : Dict Value → Dict Value → Dict Value
merge into [] = into
merge into ((k, v) ∷ from) = merge (insert k v into) from

unfoldable pub update_session_metrics :
    String → Dict Value → Sessions → Sessions × Result (Unit {0})
unfolding modify
update_session_metrics id new = modify id (λ s. record s { metrics = merge s.metrics new })

unfoldable pub get_session_metrics : String → Sessions → Result (Dict Value)
get_session_metrics id m = elim (lookup id m) [
  | none ↦ err session_not_found
  | some s ↦ ok s.metrics
]

-- The sweep of `cleanupLoop` keeps what is neither past its expiry nor inactive.
abbrev pub survives : Time → ActiveSession → Bool
survives now s = not (after now s.expires_at || not s.is_active)

unfoldable pub cleanup_loop : Time → Sessions → Sessions
cleanup_loop now m = keep_values (survives now) m

unfoldable pub cleanup_expired_sessions : Time → Sessions → Sessions × ℕ
cleanup_expired_sessions now m =
    (keep_values (survives now) m, count_if (λ e. not (survives now e.1)) m)

abbrev pub is_live : Time → ActiveSession → Bool
is_live now s = s.is_active && before now s.expires_at

-- The callback of `Range` stops the walk once `limit` sessions are gathered; `n` have been so far.
unfoldable pub gather_active : Time → String → ℕ → ℕ → Sessions → List ActiveSession
gather_active now site limit n [] = []
gather_active now site limit n ((k, s) ∷ m) =
    let hit = s.site_id == site && is_live now s in
    let n' : ℕ = if hit then suc n else n in
    let rest = gather_active now site limit n' m in
    let more = if ltb n' limit then rest else [] in if hit then s ∷ more else more

unfoldable pub get_active_sessions_by_site : Time → String → ℕ → Sessions → List ActiveSession
unfolding gather_active
get_active_sessions_by_site now site limit m = gather_active now site limit 0 m

abbrev pub is_suspicious : String → ℕ → ActiveSession → Bool
is_suspicious site min_risk s = s.site_id == site && leb min_risk s.risk_score && s.is_active

unfoldable pub get_suspicious_sessions : String → ℕ → Sessions → List ActiveSession
get_suspicious_sessions site min_risk m =
    map (λ e. e.1) (keep (λ e. is_suspicious site min_risk e.1) m)

-- `AvgRisk` is the sum of the scores over `Total`; the sum stands here undivided.
pub record SessionStats : Type 0 where
  pub total : ℕ
  pub active : ℕ
  pub blocked : ℕ
  pub risk_sum : ℕ
  pub ips : List String

-- The keys of the set of addresses after one more is put in.
abbrev pub add_ip : String → List String → List String
add_ip ip ips = if any_of (λ x. x == ip) ips then ips else ip ∷ ips

abbrev pub tally : Time → ActiveSession → SessionStats → SessionStats
tally now s st = record {
  total = suc st.total;
  active = if is_live now s then suc st.active else st.active;
  blocked = if s.is_blocked then suc st.blocked else st.blocked;
  risk_sum = st.risk_sum + s.risk_score;
  ips = add_ip s.ip st.ips;
}

unfoldable pub stats_from : Time → String → SessionStats → Sessions → SessionStats
stats_from now site st [] = st
stats_from now site st ((k, s) ∷ m) =
    stats_from now site (if s.site_id == site then tally now s st else st) m

unfoldable pub get_session_stats : Time → String → Sessions → SessionStats
unfolding stats_from
get_session_stats now site m =
    stats_from now site (record { total = 0; active = 0; blocked = 0; risk_sum = 0; ips = [] }) m

abbrev pub unique_ips : SessionStats → ℕ
unique_ips st = length st.ips

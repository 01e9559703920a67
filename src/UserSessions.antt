-- ===== src/UserSessions.antt =====
-- backend/auth/session_manager.go: the sessions of signed-in users, which expire `ttl` after the
-- last request. The `sync.Map` of pointers is a dictionary, and `time.Now` an argument.
pub mod Expiry
pub mod Admin
pub mod Endings
mod Tests
use human_guard.Base.{
  keep_values, ℕ, zero, suc, ◌+◌, ◌-◌, ◌*◌, ◌≤◌, ◌<◌, String, ◌≡◌, refl, sym, ap, ◌∙◌, ◌≢◌, ◌↔◌,
  ◌⊎◌, inl, inr, Bool, true, false, not, ◌&&◌, ◌||◌, Option, none, some, List, [], ◌∷◌, ◌++◌, map,
  arith, ◌==◌, eq_iff, eq_refl, ltb, leb, eqb, if◌then◌else◌, Bool-cases, Option-cases, length,
  keep, count_if, any_of, All, Dict, lookup, insert, delete, adjust,
}
use human_guard.Clock.{Time, after}

pub record UserSession : Type 0 where
  pub id : String
  pub user_id : String
  pub email : String
  pub role : String
  pub created_at : Time
  pub last_seen : Time
  pub expires_at : Time
  pub ip : String
  pub user_agent : String

abbrev pub UserSessions : Type 0
UserSessions = Dict UserSession

unfoldable pub cleanup : Time → UserSessions → UserSessions
cleanup now m = keep_values (λ s. not (after now s.expires_at)) m

-- The arguments of `Create` beside the identifier.
pub record Login : Type 0 where
  pub user_id : String
  pub email : String
  pub role : String
  pub ip : String
  pub user_agent : String

abbrev pub opened : ℕ → Time → String → Login → UserSession
opened ttl now id l = record {
  id = id;
  user_id = l.user_id;
  email = l.email;
  role = l.role;
  created_at = now;
  last_seen = now;
  expires_at = now + ttl;
  ip = l.ip;
  user_agent = l.user_agent;
}

unfoldable pub open_session : ℕ → Time → String → Login → UserSessions → UserSessions
open_session ttl now id l m = insert id (opened ttl now id l) m

-- `Get` deletes a session that it finds past its expiry.
unfoldable pub get_user_session : Time → String → UserSessions → UserSessions × Option UserSession
get_user_session now id m = elim (lookup id m) [
  | none ↦ (m, none)
  | some s ↦ if after now s.expires_at then (delete id m, none) else (m, some s)
]

abbrev pub seen : ℕ → Time → UserSession → UserSession
seen ttl now s = record s { last_seen = now; expires_at = now + ttl }

unfoldable pub update_last_seen : ℕ → Time → String → UserSessions → UserSessions
update_last_seen ttl now id m = adjust id (seen ttl now) m

unfoldable pub revoke_session : String → UserSessions → UserSessions
revoke_session id m = delete id m

-- One authenticated request: `Get`, and `UpdateLastSeen` when the session is found.
unfoldable pub request : ℕ → Time → String → UserSessions → UserSessions × Bool
unfolding get_user_session update_last_seen
request ttl now id m =
    let (swept, found) = get_user_session now id m in
    elim found [ none ↦ (swept, false) | some s ↦ (update_last_seen ttl now id swept, true) ]

-- ===== src/Accounts.antt =====
-- backend/handlers/user.go: the handlers of users. This module has the state that they share, what they
-- take from outside, and the handlers that only read; the others are in the child modules.
-- bcrypt, the random secret, `url.Parse` and the services of auth.go are parameters or models of their
-- own; the fields tagged `json:"-"` are not in an answer.
pub mod Register
pub mod Login
pub mod Profile
pub mod Oauth
pub mod Providers
pub mod Registration
pub mod Credentials
pub mod Takeover
pub mod Journey
pub mod Endings
pub mod Privileges
pub mod Samples
mod Tests
use human_guard.Base.{
  Char, lower_text, upper_text, byte_len, codes, has_prefix, Pairwise, All-weaken, All-keep, ℕ,
  zero, suc, ◌+◌, ◌-◌, ◌*◌, ◌≤◌, ◌<◌, String, ◌≡◌, refl, sym, ap, ◌∙◌, ◌≢◌, ◌↔◌, ◌⊎◌, inl, inr,
  Bool, true, false, not, ◌&&◌, ◌||◌, Option, none, some, List, [], ◌∷◌, ◌++◌, map, arith, ◌==◌,
  eq_iff, eq_refl, ltb, leb, eqb, if◌then◌else◌, Bool-cases, Option-cases, length, keep, count_if,
  any_of, All, Dict, lookup, insert, delete, adjust,
}
use human_guard.Errors.{Error, Result, ok, err, user_not_found}
use human_guard.Clock.{Time}
use human_guard.ApiKeys.{KeyFaults}
use human_guard.UserSessions.{UserSessions}
use human_guard.Users.{
  User, UserDb, UserFaults, list_users, get_user_by_id, get_user_by_email, check_email_exists,
  select_user,
}
use human_guard.Users.Links.{get_user_by_oauth}
use human_guard.Totp.{TotpOps}
use human_guard.Jwt.{JwtOps, validate_token}
use human_guard.Auth.{AuthEnv, AuthState, Identity}
use human_guard.Reply.{Reply, http_error, failed, json}

pub record Portal : Type 0 where
  pub db : UserDb
  pub sessions : UserSessions

-- The services, the faults of the database, the clock, and what is drawn in a request.
pub record PortalEnv : Type 0 where
  pub table : Char → Char
  pub faults : UserFaults
  pub key_faults : KeyFaults
  pub key_hash : String → String
  pub hash_password : String → Option String
  pub matches : String → String → Bool
  pub parse_url : String → Option (String × String)
  pub totp : TotpOps
  pub secret : Option String
  pub jwt : JwtOps
  pub ttl : ℕ
  pub now : Time
  pub new_user_id : String
  pub new_link_id : String
  pub new_session_id : String

-- What the middleware of auth/middleware.go sees of the state, and takes from outside.
abbrev pub auth_state : Portal → AuthState
auth_state p = record { keys = p.db.keys; users = p.db.users; sessions = p.sessions }

abbrev pub auth_env : PortalEnv → AuthEnv
auth_env env = record {
  key_hash = env.key_hash;
  validate_token = validate_token env.jwt env.now env.new_session_id;
  faults = env.key_faults;
  users_fail = env.faults select_user;
  ttl = env.ttl;
  now = env.now;
}

-- A user as `encoding/json` writes it.
pub record UserJson : Type 0 where
  pub id : String
  pub email : String
  pub name : String
  pub avatar_url : Option String
  pub role : String
  pub is_verified : Bool
  pub created_at : Time
  pub updated_at : Time
  pub last_login : Option Time

abbrev pub show_user : User → UserJson
show_user u = record {
  id = u.id;
  email = u.email;
  name = u.name;
  avatar_url = u.avatar_url;
  role = u.role;
  is_verified = u.is_verified;
  created_at = u.created_at;
  updated_at = u.updated_at;
  last_login = u.last_login;
}

unfoldable pub serve_list_users : PortalEnv → Portal → Reply (List UserJson)
serve_list_users env p = elim (list_users env.faults p.db) [
  | err e ↦ failed 500 e
  | ok users ↦ json 200 (map show_user users)
]

unfoldable pub serve_get_user : PortalEnv → String → Portal → Reply UserJson
serve_get_user env id p = elim (get_user_by_id env.faults id p.db) [
  | err e ↦ failed 404 e
  | ok user ↦ json 200 (show_user user)
]

unfoldable pub serve_get_user_by_email : PortalEnv → String → Portal → Reply UserJson
serve_get_user_by_email env email p = elim (get_user_by_email env.table env.faults email p.db) [
  | err e ↦ http_error 404 "User not found"
  | ok user ↦ json 200 (show_user user)
]

unfoldable pub serve_check_email_exists : PortalEnv → String → Portal → Reply Bool
serve_check_email_exists env email p =
    if email == ""
    then http_error 400 "Email parameter is required"
    else elim (check_email_exists env.table env.faults email p.db) [
      | err e ↦ failed 500 e
      | ok exists ↦ json 200 exists
    ]

-- `errors.Is(err, storage.ErrUserNotFound)`.
abbrev pub lookup_failed : Error → Reply UserJson
lookup_failed user_not_found = http_error 404 "User not found"
lookup_failed e = failed 500 e

abbrev pub found_reply : Result User → Reply UserJson
found_reply (err e) = lookup_failed e
found_reply (ok user) = json 200 (show_user user)

unfoldable pub serve_get_user_by_oauth : PortalEnv → String → String → Portal → Reply UserJson
serve_get_user_by_oauth env provider oauth_id p =
    if provider == "" || oauth_id == ""
    then http_error 400 "provider and oauthId are required"
    else found_reply (get_user_by_oauth env.faults provider oauth_id p.db)

unfoldable pub get_current_user : PortalEnv → Identity → Portal → Reply UserJson
get_current_user env who p =
    if who.user_id == ""
    then http_error 401 "Unauthorized"
    else found_reply (get_user_by_id env.faults who.user_id p.db)

-- ===== src/Auth.antt =====
-- backend/auth/middleware.go and role.go: who a request is from, and what it may do.
-- SHA-256 in hexadecimal (`key_hash`) and the check of a token's signature (`JWTService`) are
-- parameters. The answer of the handler behind the middleware is not looked at: a request is passed
-- on with its context, or refused with a status and a message. The update of a key's last use runs on its
-- own thread; `key_used` names the key.
pub mod Keys
pub mod Tokens
pub mod Revoked
mod Tests
use human_guard.Base.{
  codes, has_prefix, byte_len, ℕ, zero, suc, ◌+◌, ◌-◌, ◌*◌, ◌≤◌, ◌<◌, String, ◌≡◌, refl, sym, ap,
  ◌∙◌, ◌≢◌, ◌↔◌, ◌⊎◌, inl, inr, Bool, true, false, not, ◌&&◌, ◌||◌, Option, none, some, List, [],
  ◌∷◌, ◌++◌, map, arith, ◌==◌, eq_iff, eq_refl, ltb, leb, eqb, if◌then◌else◌, Bool-cases,
  Option-cases, length, keep, count_if, any_of, All, Dict, lookup, insert, delete, adjust,
}
use human_guard.Errors.{Result, ok, err}
use human_guard.Clock.{Time, after}
use human_guard.ApiKeys.{ApiKey, KeyFaults, get_api_key_by_hash}
use human_guard.UserSessions.{UserSession, UserSessions, get_user_session, update_last_seen}
use human_guard.Http.{Request, header}
use human_guard.Users.{User, find_user}

-- What a token that is valid says.
pub record Claims : Type 0 where
  pub user_id : String
  pub role : String
  pub session_id : String

pub record AuthEnv : Type 0 where
  pub key_hash : String → String
  pub validate_token : String → Option Claims
  pub faults : KeyFaults
  pub users_fail : Bool
  pub ttl : ℕ
  pub now : Time

pub record AuthState : Type 0 where
  pub keys : List ApiKey
  pub users : List User
  pub sessions : UserSessions

pub record Identity : Type 0 where
  pub user_id : String
  pub role : String
  pub session_id : String
  pub api_key_id : String

-- The error carries its text; a key in force is marked as used even when its user is gone.
pub data KeyCheck : Type 0 where
  rejected : String → KeyCheck
  orphaned : String → KeyCheck
  accepted : User → String → KeyCheck

abbrev pub has_expired : Time → ApiKey → Bool
has_expired now k = elim k.expires_at [ none ↦ false | some t ↦ after now t ]

abbrev pub api_key_prefix : String
api_key_prefix = "hg_v1_"

unfoldable pub check_owner : AuthEnv → AuthState → ApiKey → KeyCheck
check_owner env st key =
    if env.users_fail then orphaned key.id else elim (find_user key.user_id st.users) [
      | none ↦ orphaned key.id
      | some user ↦ accepted user key.id
    ]

unfoldable pub check_key : AuthEnv → AuthState → ApiKey → KeyCheck
check_key env st key =
    if key.revoked
    then rejected "api key revoked"
    else if has_expired env.now key
    then rejected "api key expired"
    else check_owner env st key

abbrev pub check_row : AuthEnv → AuthState → Result (Option ApiKey) → KeyCheck
check_row env st (err e) = rejected "api key not found"
check_row env st (ok none) = rejected "api key not found"
check_row env st (ok (some key)) = check_key env st key

unfoldable pub validate_api_key : AuthEnv → String → AuthState → KeyCheck
validate_api_key env api_key st =
    if has_prefix (codes api_key) (codes api_key_prefix)
    then check_row env st (get_api_key_by_hash env.faults (env.key_hash api_key) st.keys)
    else rejected "invalid api key format"

pub data Access : Type 0 where
  panicked : Access
  refused : ℕ → String → Access
  passed : Identity → Access

pub record Passage : Type 0 where
  pub state : AuthState
  pub access : Access
  pub key_used : Option String

abbrev pub refuse : AuthState → String → Passage
refuse st message = record { state = st; access = refused 401 message; key_used = none }

-- The log line takes the first eight bytes of the key's identifier, and panics on a shorter one.
unfoldable pub pass_key : AuthState → KeyCheck → Passage
pass_key st (rejected message) = refuse st "invalid api key"
pass_key st (orphaned id) = record (refuse st "invalid api key") { key_used = some id }
pass_key st (accepted user id) = record {
  state = st;
  access =
      if ltb (byte_len (codes id)) 8
      then panicked
      else passed
          (record { user_id = user.id; role = user.role; session_id = ""; api_key_id = id });
  key_used = some id;
}

unfoldable pub pass_session : AuthEnv → Claims → AuthState → Passage
pass_session env c st =
    let (swept, found) = get_user_session env.now c.session_id st.sessions in
    elim found [
      | none ↦ refuse (record st { sessions = swept }) "session expired or invalid"
      | some s ↦ record {
        state = record st { sessions = update_last_seen env.ttl env.now c.session_id swept };
        access = passed (record {
          user_id = c.user_id;
          role = c.role;
          session_id = c.session_id;
          api_key_id = "";
        });
        key_used = none;
      }
    ]

-- `strings.TrimPrefix`, where the prefix is there.
unfoldable pub drop_prefix : String → String → String
drop_prefix String.[] s = s
drop_prefix (String.◌∷◌ c p) String.[] = ""
drop_prefix (String.◌∷◌ c p) (String.◌∷◌ d s) = drop_prefix p s

unfoldable pub pass_token : AuthEnv → String → AuthState → Passage
pass_token env token st = elim (env.validate_token token) [
  | none ↦ refuse st "invalid token"
  | some c ↦ pass_session env c st
]

-- `Middleware`, with a session manager.
unfoldable pub authenticate : AuthEnv → Request → AuthState → Passage
authenticate env r st =
    let api_key = header "X-API-Key" r in
    let auth = header "Authorization" r in
    if not (api_key == "")
    then pass_key st (validate_api_key env api_key st)
    else if has_prefix (codes auth) (codes "Bearer ")
    then pass_token env (drop_prefix "Bearer " auth) st
    else refuse st "unauthorized"

-- `RequireRole` on the role in the context.
unfoldable pub require_role : List String → Access → Access
require_role roles panicked = panicked
require_role roles (refused status message) = refused status message
require_role roles (passed who) =
    if any_of (λ role. who.role == role) roles
    then passed who
    else refused 403 "Forbidden: insufficient permissions"

abbrev pub require_admin : Access → Access
require_admin = require_role ("admin" ∷ [])

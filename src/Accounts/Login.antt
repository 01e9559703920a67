-- ===== src/Accounts/Login.antt =====
-- backend/handlers/user.go, `Login` and `Logout`.
use human_guard.Base.{String, Bool, true, false, ◌||◌, Option, none, some, ◌==◌, if◌then◌else◌}
use human_guard.Errors.{Result, ok, err}
use human_guard.Http.{Body, parsed, Request, get_real_ip}
use human_guard.UserSessions.{
  UserSession, UserSessions, open_session, get_user_session, revoke_session,
}
use human_guard.Users.{User, get_user_by_email, update_last_login}
use human_guard.Totp.{validate_code}
use human_guard.Jwt.{generate_token_with_session_id}
use human_guard.Auth.{Identity}
use human_guard.Accounts.{Portal, PortalEnv, UserJson, show_user}
use human_guard.Reply.{Reply, json_error, json, no_content, panicked}

pub record LoginBody : Type 0 where
  pub email : String
  pub password : String
  pub totp_code : String

pub record LoginReply : Type 0 where
  pub token : String
  pub user : UserJson

-- The state, the answer, and the user whose last login a thread of its own then writes.
pub record LoginOutcome : Type 0 where
  pub portal : Portal
  pub reply : Reply LoginReply
  pub job : Option String

abbrev pub login_error : Portal → LoginOutcome
login_error p = record {
  portal = p;
  reply = json_error 401 "invalid email or password or verification code";
  job = none;
}

-- `none` is a panic of `GenerateCode`.
abbrev pub totp_passes : PortalEnv → Option String → String → Option Bool
totp_passes env none code = some true
totp_passes env (some secret) code =
    if secret == ""
    then some true
    else if code == ""
    then some false
    else validate_code env.totp env.now secret code

-- `sessionManager.Create` for a user whose request comes from `r`.
unfoldable pub open_for : PortalEnv → Request → User → Portal → Portal
open_for env r user p = record p {
  sessions =
      open_session env.ttl env.now env.new_session_id
        (record {
          user_id = user.id;
          email = user.email;
          role = user.role;
          ip = get_real_ip r;
          user_agent = r.user_agent;
        })
        p.sessions;
}

-- The session is stored before the token is signed.
unfoldable pub admit : PortalEnv → Request → User → Portal → LoginOutcome
admit env r user p =
    let p' = open_for env r user p in
    elim (generate_token_with_session_id env.jwt env.now user.id user.role env.new_session_id) [
      | none ↦ record { portal = p'; reply = json_error 500 "internal error"; job = none }
      | some token ↦ record {
        portal = p';
        reply = json 200 (record { token = token; user = show_user user });
        job = some user.id;
      }
    ]

abbrev pub after_totp : PortalEnv → Request → User → Option Bool → Portal → LoginOutcome
after_totp env r user none p = record { portal = p; reply = panicked; job = none }
after_totp env r user (some false) p = login_error p
after_totp env r user (some true) p = admit env r user p

unfoldable pub check_credentials : PortalEnv → Request → LoginBody → User → Portal → LoginOutcome
check_credentials env r b user p =
    if env.matches user.password_hash b.password
    then after_totp env r user (totp_passes env user.totp_secret b.totp_code) p
    else login_error p

abbrev pub check_user : PortalEnv → Request → LoginBody → Result User → Portal → LoginOutcome
check_user env r b (err e) p = login_error p
check_user env r b (ok user) p = check_credentials env r b user p

unfoldable pub login : PortalEnv → Request → Body LoginBody → Portal → LoginOutcome
login env r body p = elim body [
  | parsed b ↦
      if b.email == "" || b.password == ""
      then login_error p
      else check_user env r b (get_user_by_email env.table env.faults b.email p.db) p
  | _ ↦ login_error p
]

-- The thread that the login has started.
unfoldable pub run_login_job : PortalEnv → Option String → Portal → Portal
run_login_job env none p = p
run_login_job env (some id) p = record p { db = (update_last_login env.faults env.now id p.db).0 }

abbrev pub delete_found : String → UserSessions × Option UserSession → UserSessions
delete_found id (m, none) = m
delete_found id (m, some s) = revoke_session id m

unfoldable pub logout : PortalEnv → Identity → Portal → Portal × Reply (Unit {0})
logout env who p = if who.session_id == "" then (p, no_content) else (
  record p {
    sessions = delete_found who.session_id (get_user_session env.now who.session_id p.sessions);
  },
  no_content,
)

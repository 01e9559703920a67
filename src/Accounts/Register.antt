-- ===== src/Accounts/Register.antt =====
-- backend/handlers/user.go, `CreateUser`: the registration of a user by email and password.
use Prim.Native.String.{◌++◌}
use human_guard.Base.{
  byte_len, codes, String, Bool, false, ◌||◌, none, some, ◌==◌, ltb, if◌then◌else◌,
}
use human_guard.Errors.{ok, err}
use human_guard.Http.{Body, parsed}
use human_guard.Users.{User, UserDb, create_user, check_email_exists}
use human_guard.Accounts.{Portal, PortalEnv, UserJson, show_user}
use human_guard.Reply.{Reply, json_error, json}

pub record CreateUserBody : Type 0 where
  pub email : String
  pub name : String
  pub password : String

pub record Registered : Type 0 where
  pub user : UserJson
  pub totp_secret : String
  pub qr_code_url : String

-- An error of the query counts as a free email.
abbrev pub email_taken : PortalEnv → String → UserDb → Bool
email_taken env email db = elim (check_email_exists env.table env.faults email db) [
  | err e ↦ false
  | ok exists ↦ exists
]

abbrev pub registered_user : CreateUserBody → String → String → User
registered_user b hash secret = record {
  id = "";
  email = b.email;
  name = b.name;
  avatar_url = none;
  role = "user";
  totp_secret = some secret;
  password_hash = hash;
  is_verified = false;
  created_at = 0;
  updated_at = 0;
  last_login = none;
}

unfoldable pub generate_qr_url : String → String → String
generate_qr_url email secret =
    "otpauth://totp/HumanGuard:" ++ email ++ "?secret=" ++ secret ++ "&issuer=HumanGuard"

unfoldable pub store_user :
    PortalEnv → CreateUserBody → String → String → Portal → Portal × Reply Registered
store_user env b hash secret p =
    let (db, made) =
      create_user env.faults env.now env.new_user_id (registered_user b hash secret) p.db in
    elim made [
      | err e ↦ (record p { db = db }, json_error 500 "failed to create user")
      | ok user ↦ (
        record p { db = db },
        json 201 (record {
          user = show_user user;
          totp_secret = secret;
          qr_code_url = generate_qr_url b.email secret;
        }),
      )
    ]

unfoldable pub register : PortalEnv → CreateUserBody → Portal → Portal × Reply Registered
register env b p =
    if b.email == "" || b.password == ""
    then (p, json_error 400 "email and password required")
    else if ltb (byte_len (codes b.password)) 8
    then (p, json_error 400 "password too short (min 8)")
    else if email_taken env b.email p.db
    then (p, json_error 409 "email already exists")
    else elim (env.hash_password b.password) [
      | none ↦ (p, json_error 500 "failed to hash password")
      | some hash ↦ elim env.secret [
        | none ↦ (p, json_error 500 "failed to generate TOTP secret")
        | some secret ↦ store_user env b hash secret p
      ]
    ]

unfoldable pub serve_create_user :
    PortalEnv → Body CreateUserBody → Portal → Portal × Reply Registered
serve_create_user env body p = elim body [
  | parsed b ↦ register env b p
  | _ ↦ (p, json_error 400 "invalid request")
]

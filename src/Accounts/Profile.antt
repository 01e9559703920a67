-- ===== src/Accounts/Profile.antt =====
-- backend/handlers/user.go: the changes of a user: name, role and picture, password, and deletion.
use human_guard.Base.{
  byte_len, codes, String, Bool, false, not, ◌&&◌, ◌||◌, Option, none, some, ◌==◌, ltb,
  if◌then◌else◌,
}
use human_guard.Errors.{Error, Result, ok, err, user_not_found}
use human_guard.Http.{Body, parsed, trim_space}
use human_guard.Users.{
  UserDb, User, get_user_by_id, update_user, update_password, update_avatar, delete_user,
}
use human_guard.Auth.{Identity}
use human_guard.Accounts.{Portal, PortalEnv, UserJson, show_user}
use human_guard.Reply.{Reply, http_error, failed, json, no_content}

pub record UpdateUserBody : Type 0 where
  pub name : String
  pub role : String
  pub avatar_url : String

abbrev pub is_web : Option (String × String) → Bool
is_web none = false
is_web (some (scheme, host)) = not (host == "") && (scheme == "http" || scheme == "https")

-- `none` where the source answers false.
unfoldable pub normalize_avatar_url : PortalEnv → String → Option String
normalize_avatar_url env value =
    if is_web (env.parse_url (trim_space value)) then some (trim_space value) else none

abbrev pub or_kept : String → String → String
or_kept new old = if new == "" then old else new

-- The picture that is asked for: the old one for an empty text, none for one that is refused.
abbrev pub asked_avatar : PortalEnv → String → User → Option (Option String)
asked_avatar env asked user =
    if asked == ""
    then some user.avatar_url
    else elim (normalize_avatar_url env asked) [ none ↦ none | some url ↦ some (some url) ]

abbrev pub edited : UpdateUserBody → Option String → User → User
edited b avatar user = record user {
  name = or_kept b.name user.name;
  role = or_kept b.role user.role;
  avatar_url = avatar;
}

unfoldable pub write_user : PortalEnv → User → Portal → Portal × Reply UserJson
write_user env user p =
    let (db, done) = update_user env.faults env.now user p.db in
    elim done [
      | err e ↦ (record p { db = db }, failed 500 e)
      | ok _ ↦ (record p { db = db }, json 200 (show_user (record user { updated_at = env.now })))
    ]

abbrev pub edit_user : PortalEnv → UpdateUserBody → Result User → Portal → Portal × Reply UserJson
edit_user env b (err e) p = (p, http_error 404 "User not found")
edit_user env b (ok user) p = elim (asked_avatar env b.avatar_url user) [
  | none ↦ (p, http_error 400 "avatar_url must be an http(s) URL")
  | some avatar ↦ write_user env (edited b avatar user) p
]

-- The identity of the requester is not asked for.
unfoldable pub serve_update_user :
    PortalEnv → String → Body UpdateUserBody → Portal → Portal × Reply UserJson
serve_update_user env id body p = elim body [
  | parsed b ↦ edit_user env b (get_user_by_id env.faults id p.db) p
  | _ ↦ (p, http_error 400 "Invalid request body")
]

abbrev pub missing_or_failed : Error → Reply (Unit {0})
missing_or_failed user_not_found = http_error 404 "User not found"
missing_or_failed e = failed 500 e

abbrev pub answered : Portal → UserDb × Result (Unit {0}) → Portal × Reply (Unit {0})
answered p (db, err e) = (record p { db = db }, missing_or_failed e)
answered p (db, ok _) = (record p { db = db }, no_content)

unfoldable pub serve_delete_user : PortalEnv → String → Portal → Portal × Reply (Unit {0})
serve_delete_user env id p = answered p (delete_user env.faults id p.db)

pub record PasswordBody : Type 0 where
  pub old_password : String
  pub new_password : String

abbrev pub is_admin_update : Identity → String → Bool
is_admin_update who id = who.role == "admin" && not (who.user_id == "") && not (who.user_id == id)

unfoldable pub write_password : PortalEnv → String → String → Portal → Portal × Reply (Unit {0})
write_password env id password p = elim (env.hash_password password) [
  | none ↦ (p, http_error 500 "Failed to hash new password")
  | some hash ↦
      let (db, done) = update_password env.faults env.now id hash p.db in
      elim done [
        | err e ↦ (record p { db = db }, failed 500 e)
        | ok _ ↦ (record p { db = db }, no_content)
      ]
]

abbrev pub replace_password :
    PortalEnv → Identity → String → PasswordBody → Result User → Portal → Portal × Reply (Unit {0})
replace_password env who id b (err e) p = (p, http_error 404 "User not found")
replace_password env who id b (ok user) p =
    if is_admin_update who id
    then write_password env id b.new_password p
    else if b.old_password == ""
    then (p, http_error 400 "Old password is required")
    else if env.matches user.password_hash b.old_password
    then write_password env id b.new_password p
    else (p, http_error 401 "Invalid old password")

unfoldable pub change_password :
    PortalEnv → Identity → String → Body PasswordBody → Portal → Portal × Reply (Unit {0})
change_password env who id body p = elim body [
  | parsed b ↦
      if b.new_password == ""
      then (p, http_error 400 "New password is required")
      else if ltb (byte_len (codes b.new_password)) 8
      then (p, http_error 400 "Password too short (min 8)")
      else replace_password env who id b (get_user_by_id env.faults id p.db) p
  | _ ↦ (p, http_error 400 "Invalid request body")
]

unfoldable pub serve_update_avatar :
    PortalEnv → String → Body String → Portal → Portal × Reply (Unit {0})
serve_update_avatar env id body p = elim body [
  | parsed asked ↦
      if asked == ""
      then (p, http_error 400 "avatar_url is required")
      else elim (normalize_avatar_url env asked) [
        | none ↦ (p, http_error 400 "avatar_url must be an http(s) URL")
        | some url ↦ answered p (update_avatar env.faults env.now id url p.db)
      ]
  | _ ↦ (p, http_error 400 "Invalid request body")
]

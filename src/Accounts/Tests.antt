-- ===== src/Accounts/Tests.antt =====
-- The management API on concrete requests.
use human_guard.Totp.{padded, truncate, code_of_hash, generate_code, validate_code}
use human_guard.Accounts.Register.{
  generate_qr_url, store_user, register, Registered, CreateUserBody,
}
use human_guard.Accounts.Registration.{login-register, MatchesHashes}
use human_guard.Accounts.Privileges.{
  get_user_by_id-serve_update_user, authenticate-serve_delete_user,
}
use human_guard.ApiKeys.{find_key}
use human_guard.Accounts.Takeover.{oauth_callback_unverified}
use human_guard.Accounts.Providers.{sign_in_again}
use human_guard.Errors.{user_not_found, ok}
use human_guard.Users.Links.{
  add_user_oauth, get_or_create_user_by_oauth, find_link, get_user_by_oauth, OauthUserInfo,
}
use human_guard.Accounts.Profile.{
  PasswordBody, serve_update_user, serve_delete_user, UpdateUserBody,
}
use human_guard.Accounts.Oauth.{
  redirect, github, oauth_callback, primary_email, chosen_email, github_user_info, Callback,
  OauthService, GithubUser, sign_in, GithubEmail,
}
use human_guard.Base.{
  ◌≢◌, eq_iff, List, lower_text, ◌+◌, ◌≡◌, refl, ◌⊎◌, arith, lookup, String, true, false, none,
  some, [], ◌∷◌, ◌≢◌, eq_iff,
}
use human_guard.Clock.{second, hour}
use human_guard.Http.{Request, parsed, malformed}
use human_guard.Users.{
  check_email_exists, create_user, delete_user, find_user, get_user_by_id, User, find_email,
  get_user_by_email,
}
use human_guard.Users.Constraints.{IsSound}
use human_guard.Jwt.{generate_token_with_session_id, validate_token}
use human_guard.Jwt.Samples.{reads_back}
use human_guard.Auth.{Identity, Claims, passed, refused, authenticate, drop_prefix}
use human_guard.UserSessions.Admin.{force_revoke_session}
use human_guard.UserSessions.Endings.{Event, opens, requests, sweeps}
use human_guard.Accounts.Endings.{after_events, authenticate-logout}
use human_guard.Accounts.{Portal, auth_env, auth_state, show_user}
use human_guard.Accounts.Samples.{hash_of, portal_env, ann_secured, portal, bearing}
use human_guard.Accounts.Login.{
  open_for, LoginBody, login, login_error, admit, run_login_job, logout,
}
use human_guard.Accounts.Credentials.{Knows, login_refused_alike}
use human_guard.Accounts.Journey.{later_env, logged_in_identity, authenticate-login}
use human_guard.Reply.{json}
use human_guard.Samples.{key, ask, in_1970, totp-GivesDigests}

abbrev credentials : LoginBody
credentials = record { email = "ann@example.org"; password = "password"; totp_code = "" }

credentials-Knows : Knows portal_env portal credentials ann_secured
unfolding get_user_by_email find_email lower_text
credentials-Knows = record {
  email_given = refl;
  password_given = refl;
  named = refl;
  password = refl;
  code = refl;
}

login_refused_alike_example :
    (login portal_env bearing malformed portal ≡ login_error portal)
    ⊎ ((b : LoginBody) × (user : User) × (malformed ≡ parsed b)
        × Knows portal_env portal b user
        × (login portal_env bearing malformed portal ≡ admit portal_env bearing user portal))
login_refused_alike_example =
    login_refused_alike portal_env bearing malformed portal totp-GivesDigests

authenticate-login_example :
    let out = login portal_env bearing (parsed credentials) portal in
    (out.reply ≡ json 200 (record { token = "token"; user = show_user ann_secured }))
    × ((authenticate
          (auth_env (later_env (in_1970 + hour) "s9" portal_env))
          bearing
          (auth_state out.portal)).access
        ≡ passed (logged_in_identity portal_env ann_secured))
    × ((authenticate
          (auth_env (later_env (in_1970 + hour) "s9" portal_env))
          bearing
          (auth_state (run_login_job portal_env out.job out.portal))).access
        ≡ passed (logged_in_identity portal_env ann_secured))
unfolding generate_token_with_session_id drop_prefix lookup
authenticate-login_example =
    authenticate-login portal_env bearing bearing credentials portal ann_secured "token" "s9"
      (in_1970 + hour) reads_back refl credentials-Knows refl (refl, refl) refl (omega arith)
      (omega arith)

abbrev ann_identity : Identity
ann_identity = record { user_id = "u1"; role = "admin"; session_id = "s1"; api_key_id = "" }

abbrev ann_claims : Claims
ann_claims = record { user_id = "u1"; role = "admin"; session_id = "s1" }

abbrev later_events : List Event
later_events =
    opens hour (in_1970 + hour) "s7" (record {
      user_id = "u1";
      email = "ann@example.org";
      role = "admin";
      ip = "192.0.2.1";
      user_agent = "";
    })
    ∷ requests hour (in_1970 + hour) "s7"
    ∷ sweeps (in_1970 + hour)
    ∷ []

authenticate-logout_example :
    let env' = later_env (in_1970 + hour) "s9" portal_env in
    let revoked : Portal = record portal {
      sessions = (force_revoke_session in_1970 "s1" portal.sessions).0;
    } in
    ((authenticate
        (auth_env env')
        bearing
        (auth_state (after_events later_events (logout portal_env ann_identity portal).0))).access
      ≡ refused 401 "session expired or invalid")
    × ((authenticate
          (auth_env env')
          bearing
          (auth_state (after_events later_events revoked))).access
        ≡ refused 401 "session expired or invalid")
unfolding validate_token drop_prefix lookup
authenticate-logout_example =
    authenticate-logout portal_env (later_env (in_1970 + hour) "s9" portal_env) ann_identity portal
      later_events bearing ann_claims refl (refl, (refl, (refl, tt))) (refl, refl) refl refl

abbrev new_password : PasswordBody
new_password = record { old_password = "password"; new_password = "correct horse" }

abbrev keyed : Request
keyed = ask "GET" (("X-API-Key", "hg_v1_secret") ∷ [])

authenticate-serve_delete_user_example :
    let st = auth_state (serve_delete_user portal_env "u1" portal).0 in
    ((authenticate (auth_env portal_env) keyed st).access ≡ refused 401 "invalid api key")
    × ((authenticate (auth_env portal_env) bearing st).access
        ≡ (authenticate (auth_env portal_env) bearing (auth_state portal)).access)
unfolding serve_delete_user delete_user lookup find_key
authenticate-serve_delete_user_example =
    authenticate-serve_delete_user portal_env portal_env "u1" portal bearing keyed key refl (tt, tt)
      (refl, refl) refl refl refl

abbrev promotion : UpdateUserBody
promotion = record { name = ""; role = "user"; avatar_url = "" }

get_user_by_id-serve_update_user_example :
    let out = serve_update_user portal_env "u1" (parsed promotion) portal in
    let now_user : User = record ann_secured {
      name = ann_secured.name;
      role = "user";
      updated_at = in_1970;
    } in
    (out.1 ≡ json 200 (show_user now_user))
    × (get_user_by_id portal_env.faults "u1" out.0.db ≡ ok now_user)
unfolding get_user_by_id find_user
get_user_by_id-serve_update_user_example =
    get_user_by_id-serve_update_user portal_env "u1" promotion portal ann_secured refl refl refl
      refl

abbrev callback : Callback
callback = record { request = bearing; state = "state"; code = "code"; state_cookie = some "state" }

abbrev bo : OauthUserInfo
bo = record { id = "42"; email = "bo@example.org"; name = "Bo" }

abbrev renamed : OauthUserInfo
renamed = record { id = "42"; email = "robert@example.org"; name = "Robert" }

portal-IsSound : IsSound portal.db
portal-IsSound = record { distinct = (tt, tt); roles = (refl, tt); links_distinct = tt; owned = tt }

abbrev made_id : String
made_id = "u2"

sign_in_again_example : made_id ≡ made_id
unfolding sign_in get_or_create_user_by_oauth get_user_by_oauth find_link get_user_by_email
    find_email lower_text create_user generate_token_with_session_id add_user_oauth find_user
    open_for
sign_in_again_example =
    sign_in_again portal_env github callback callback bo renamed portal (in_1970 + hour) "u3" "l3"
      "s3" made_id made_id portal-IsSound refl refl refl refl refl refl

abbrev mallory : GithubUser
mallory = record { id = "99"; login = "mallory"; name = ""; email = "" }

abbrev claimed : GithubEmail
claimed = record { email = "ann@example.org"; primary = true; verified = false }

abbrev github_service : OauthService
github_service = record {
  exchange_code = λ code. some "access";
  get_user_info = λ token. some (record { id = "99"; email = "ann@example.org"; name = "mallory" });
}

claimed_given : claimed.email ≢ ""
claimed_given e = ground (arith, (eq_iff "ann@example.org" "").1 e)

oauth_callback_unverified_example :
    let out = oauth_callback portal_env github_service github callback portal in
    (out.1 ≡ redirect "token" "u1" "ann@example.org" "admin" ∷ [])
    × ((authenticate
          (auth_env (later_env (in_1970 + hour) "s9" portal_env))
          bearing
          (auth_state out.0)).access
        ≡ passed (record { user_id = "u1"; role = "admin"; session_id = "s1"; api_key_id = "" }))
unfolding github_user_info chosen_email primary_email get_user_by_oauth find_link get_user_by_email
    find_email lower_text generate_token_with_session_id drop_prefix lookup
oauth_callback_unverified_example =
    oauth_callback_unverified portal_env github_service callback portal mallory claimed [] "access"
      ann_secured user_not_found "token" "s9" (in_1970 + hour) bearing refl refl refl refl
      (refl, tt) refl claimed_given refl refl reads_back refl refl (refl, refl) refl (omega arith)
      (omega arith)

abbrev newcomer : CreateUserBody
newcomer = record { email = "bo@example.org"; name = "Bo"; password = "password" }

abbrev stored_newcomer : User
stored_newcomer = record {
  id = "u2";
  email = "bo@example.org";
  name = "Bo";
  avatar_url = none;
  role = "user";
  totp_secret = some "SECRET";
  password_hash = "hash of password";
  is_verified = false;
  created_at = in_1970;
  updated_at = in_1970;
  last_login = none;
}

abbrev handed_out : Registered
handed_out = record {
  user = show_user stored_newcomer;
  totp_secret = "SECRET";
  qr_code_url = "otpauth://totp/HumanGuard:bo@example.org?secret=SECRET&issuer=HumanGuard";
}

abbrev first_login : LoginBody
first_login = record { email = "bo@example.org"; password = "password"; totp_code = "000000" }

matches_hashes : MatchesHashes portal_env
matches_hashes password hash made = ground (arith, eq_iff hash (hash_of password))

login-register_example :
    let env = later_env (in_1970 + second) "s2" portal_env in
    let q = (register portal_env newcomer portal).0 in
    ((lower_text (λ c. c) newcomer.email ≡ newcomer.email)
      × ((user : User) × (handed_out.user ≡ show_user user)
          × (login env bearing (parsed first_login) q ≡ admit env bearing user q)))
    ⊎ ((lower_text (λ c. c) newcomer.email ≢ newcomer.email)
        × (login env bearing (parsed first_login) q ≡ login_error q))
unfolding register store_user create_user generate_qr_url check_email_exists validate_code
    generate_code code_of_hash truncate padded lower_text
login-register_example =
    login-register portal_env bearing newcomer first_login portal handed_out (in_1970 + second) "s2"
      matches_hashes refl refl refl refl refl refl

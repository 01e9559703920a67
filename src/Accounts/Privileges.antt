-- ===== src/Accounts/Privileges.antt =====
-- What deleting a user, and editing one, means for the requests of that user.
use human_guard.Base.{
  if◌then◌else◌, String, ◌≡◌, refl, sym, ap, ◌∙◌, ◌≢◌, inl, inr, true, false, not, none, some,
  arith, ◌==◌, eq_iff, Option-cases,
}
use human_guard.Errors.{Error, ok}
use human_guard.Http.{parsed, Request, header}
use human_guard.ApiKeys.{ApiKey, get_api_key_by_hash, find_key, has_hash}
use human_guard.ApiKeys.Revocation.{AreUnique}
use human_guard.UserSessions.{get_user_session}
use human_guard.Users.{User, get_user_by_id, update_user, is_role, update_user_query, find_user}
use human_guard.Users.Outcomes.{delete_user-cases, deleted}
use human_guard.Users.Lookups.{
  get_user_by_id-update_user, get_user_by_id-found, find_user-id, update_user_ok,
}
use human_guard.Auth.{
  AuthEnv, AuthState, Claims, refused, authenticate, pass_session, pass_token, pass_key,
  validate_api_key,
}
use human_guard.Auth.Tokens.{IsBearer, token_of}
use human_guard.Auth.Revoked.{find_key-keep}
use human_guard.Accounts.{Portal, PortalEnv, auth_state, auth_env, show_user}
use human_guard.Accounts.Profile.{
  UpdateUserBody, serve_update_user, answered, missing_or_failed, edited, write_user,
  serve_delete_user,
}
use human_guard.Reply.{json, no_content}

-- The answer to a bearer of a token depends on the sessions alone.
pass_session_same :
    (env : AuthEnv) (c : Claims) (st st' : AuthState)
    → st.sessions ≡ st'.sessions
    → (pass_session env c st).access ≡ (pass_session env c st').access
unfolding pass_session
pass_session_same env c st st' same =
    elim (Option-cases (get_user_session env.now c.session_id st'.sessions).1) [
      | inl gone ↦ rw (same, pass_session, gone) refl
      | inr (s, there) ↦ rw (same, pass_session, there) refl
    ]

pass_token_same :
    (env : AuthEnv) (token : String) (st st' : AuthState)
    → st.sessions ≡ st'.sessions
    → (pass_token env token st).access ≡ (pass_token env token st').access
unfolding pass_token
pass_token_same env token st st' same = elim (Option-cases (env.validate_token token)) [
  | inl bad ↦ rw (bad, pass_token) refl
  | inr (c, valid) ↦ rw (valid, pass_token) (pass_session_same env c st st' same)
]

authenticate_same :
    (env : AuthEnv) (r : Request) (st st' : AuthState)
    → IsBearer r
    → st.sessions ≡ st'.sessions
    → (authenticate env r st).access ≡ (authenticate env r st').access
unfolding authenticate
authenticate_same env r st st' bearer same =
    let token = pass_token_same env (token_of r) st st' same in
    ground (arith, eq_iff (header "X-API-Key" r) "")

not_done : (e : Error) → missing_or_failed e ≢ no_content
not_done e same = ground arith

serve_delete_user-deleted :
    (env : PortalEnv) (id : String) (p : Portal)
    → (serve_delete_user env id p).1 ≡ no_content
    → (serve_delete_user env id p).0 ≡ record p { db = deleted id p.db }
unfolding serve_delete_user
serve_delete_user-deleted env id p done = elim (delete_user-cases env.faults id p.db) [
  | inl (e, same) ↦
      let wrong = not_done e (sym (ap (λ x. (answered p x).1) same) ∙ done) in ground arith
  | inr made ↦ ap (λ x. (answered p x).0) made
]

key_refused :
    (env : AuthEnv) (r : Request) (st : AuthState)
    → (header "X-API-Key" r == "") ≡ false
    → find_key (has_hash (env.key_hash (header "X-API-Key" r))) st.keys ≡ none
    → (authenticate env r st).access ≡ refused 401 "invalid api key"
unfolding authenticate pass_key validate_api_key get_api_key_by_hash
key_refused env r st sent missing = ground arith

-- Once `DeleteUser` has answered 204 for a user, every request with one of the user's API keys is refused
-- with status 401. But the sessions stay: a request with a bearer token is answered just as it was
-- before, so whoever was signed in as the deleted user still passes, with the role of the login.
pub authenticate-serve_delete_user :
    (env env' : PortalEnv) (id : String) (p : Portal) (bearing keyed : Request) (key : ApiKey)
    → (serve_delete_user env id p).1 ≡ no_content
    → AreUnique p.db.keys
    → IsBearer bearing
    → (header "X-API-Key" keyed == "") ≡ false
    → find_key (has_hash (env'.key_hash (header "X-API-Key" keyed))) p.db.keys ≡ some key
    → key.user_id ≡ id
    → let st = auth_state (serve_delete_user env id p).0 in
      ((authenticate (auth_env env') keyed st).access ≡ refused 401 "invalid api key")
      × ((authenticate (auth_env env') bearing st).access
          ≡ (authenticate (auth_env env') bearing (auth_state p)).access)
authenticate-serve_delete_user env env' id p bearing keyed key done unique bearer sent found owned =
    let p' : Portal = record p { db = deleted id p.db } in
    let gone =
      find_key-keep (env'.key_hash (header "X-API-Key" keyed)) (λ k. not (k.user_id == id))
        p.db.keys key unique found (ground (arith, eq_iff key.user_id id)) in
    rw (serve_delete_user-deleted env id p done) (
      key_refused (auth_env env') keyed (auth_state p') sent gone,
      authenticate_same (auth_env env') bearing (auth_state p') (auth_state p) bearer refl,
    )

-- A `PUT /api/users/{id}` that leaves the picture out is answered with 200 and is stored: from then on
-- the user has the name and the role of the body where these are not empty, an administrator's role
-- included, the time of the change, and all else as it was. The user exists, the role is a known one,
-- and the database answers.
pub get_user_by_id-serve_update_user :
    (env : PortalEnv) (id : String) (b : UpdateUserBody) (p : Portal) (user : User)
    → get_user_by_id env.faults id p.db ≡ ok user
    → b.avatar_url ≡ ""
    → is_role (if b.role == "" then user.role else b.role) ≡ true
    → env.faults update_user_query ≡ false
    → let out = serve_update_user env id (parsed b) p in
      let now_user : User = record user {
        name = if b.name == "" then user.name else b.name;
        role = if b.role == "" then user.role else b.role;
        updated_at = env.now;
      } in
      (out.1 ≡ json 200 (show_user now_user))
      × (get_user_by_id env.faults id out.0.db ≡ ok now_user)
unfolding serve_update_user write_user
get_user_by_id-serve_update_user env id b p user found plain known up =
    let u = edited b user.avatar_url user in
    let there = get_user_by_id-found env.faults id p.db user found in
    let same : user.id ≡ id = find_user-id id p.db.users user there in
    let at_id : find_user u.id p.db.users ≡ some user =
      ap (λ i. find_user i p.db.users) same ∙ there in
    let made = update_user_ok env.faults env.now u user p.db at_id known up in
    let read =
      get_user_by_id-update_user env.faults env.now u user p.db
        (ap (λ i. get_user_by_id env.faults i p.db) same ∙ found) made in
    rw (found, plain, write_user, made)
      (
        refl,
        ap (λ i. get_user_by_id env.faults i (update_user env.faults env.now u p.db).0) (sym same)
            ∙ read,
      )

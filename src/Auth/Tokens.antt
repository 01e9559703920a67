-- ===== src/Auth/Tokens.antt =====
-- Requests with a bearer token, and the roles.
use human_guard.Base.{
  codes, has_prefix, ◌≤◌, String, ◌≡◌, refl, ◌↔◌, ◌⊎◌, inl, inr, true, some, arith, eq_iff,
  Bool-cases, Option-cases, lookup,
}
use human_guard.Clock.{after}
use human_guard.UserSessions.{UserSession, get_user_session}
use human_guard.Http.{Request, header}
use human_guard.Auth.{
  Claims, AuthEnv, AuthState, Identity, Access, panicked, refused, passed, pass_session, pass_token,
  authenticate, drop_prefix, require_role, require_admin,
}

-- The text that the middleware takes for the token.
abbrev pub token_of : Request → String
token_of r = drop_prefix "Bearer " (header "Authorization" r)

abbrev pub IsBearer : Request → Type 0
IsBearer r =
    (header "X-API-Key" r ≡ "")
    × (has_prefix (codes (header "Authorization" r)) (codes "Bearer ") ≡ true)

-- The identity that a token gives.
abbrev pub token_identity : Claims → Identity
token_identity c = record {
  user_id = c.user_id;
  role = c.role;
  session_id = c.session_id;
  api_key_id = "";
}

pass_token_valid :
    (env : AuthEnv) (token : String) (st : AuthState) (c : Claims)
    → env.validate_token token ≡ some c
    → pass_token env token st ≡ pass_session env c st
unfolding pass_token
pass_token_valid env token st c valid = rw (valid, pass_token) refl

authenticate_bearer :
    (env : AuthEnv) (r : Request) (st : AuthState) (c : Claims)
    → IsBearer r
    → env.validate_token (token_of r) ≡ some c
    → authenticate env r st ≡ pass_session env c st
unfolding authenticate
authenticate_bearer env r st c bearer valid =
    let through = pass_token_valid env (token_of r) st c valid in
    ground (arith, eq_iff (header "X-API-Key" r) "")

pass_session_found :
    (env : AuthEnv) (c : Claims) (st : AuthState) (s : UserSession)
    → lookup c.session_id st.sessions ≡ some s
    → (((pass_session env c st).access ≡ passed (token_identity c)) ↔ (
        (x : UserSession) × (lookup c.session_id st.sessions ≡ some x) × (env.now ≤ x.expires_at)))
      × (((pass_session env c st).access ≡ passed (token_identity c))
          ⊎ ((pass_session env c st).access ≡ refused 401 "session expired or invalid"))
unfolding pass_session get_user_session
pass_session_found env c st s found = elim (Bool-cases (after env.now s.expires_at)) [
  | inl late ↦
      rw (found, late, pass_session, get_user_session)
        ((λ e. ground arith, λ x. ground (arith, x.1, x.2)), inr refl)
  | inr early ↦
      rw (found, early, pass_session, get_user_session)
        ((λ e. (s, refl, ground arith), λ x. refl), inl refl)
]

-- A request with a valid token is passed on exactly when the session that the token names is in the
-- store and not past its expiry, and it is then passed on as what the token says. Otherwise it is
-- refused with status 401.
pub authenticate_token :
    (env : AuthEnv) (r : Request) (st : AuthState) (c : Claims)
    → IsBearer r
    → env.validate_token (token_of r) ≡ some c
    → (((authenticate env r st).access ≡ passed (token_identity c)) ↔ (
        (s : UserSession) × (lookup c.session_id st.sessions ≡ some s) × (env.now ≤ s.expires_at)))
      × (((authenticate env r st).access ≡ passed (token_identity c))
          ⊎ ((authenticate env r st).access ≡ refused 401 "session expired or invalid"))
unfolding pass_session get_user_session
authenticate_token env r st c bearer valid =
    let same = authenticate_bearer env r st c bearer valid in
    elim (Option-cases (lookup c.session_id st.sessions)) [
      | inl missing ↦
          rw (same, missing, pass_session, get_user_session)
            ((λ e. ground arith, λ x. ground (arith, x.1)), inr refl)
      | inr (s, found) ↦ rw same (pass_session_found env c st s found)
    ]

-- A handler behind `RequireAdmin` runs only for the role "admin", and for every request of that role.
pub require_admin_passed :
    (a : Access) (who : Identity)
    → (require_admin a ≡ passed who) ↔ ((a ≡ passed who) × (who.role ≡ "admin"))
unfolding require_role
require_admin_passed panicked who = ground arith
require_admin_passed (refused status message) who = ground arith
require_admin_passed (passed you) who = ground (arith, eq_iff you.role "admin")

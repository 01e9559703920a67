-- ===== src/Accounts/Journey.antt =====
-- From a login over authenticated requests to the logout.
use human_guard.Base.{
  lookup-insert_self, ◌+◌, ◌*◌, ◌≤◌, ◌<◌, String, ◌≡◌, refl, ap, ◌∙◌, false, Option, none, some,
  ◌==◌, lookup,
}
use human_guard.Clock.{Time, hour, unix}
use human_guard.Http.{parsed, Request, get_real_ip}
use human_guard.UserSessions.{Login, UserSession, open_session, opened}
use human_guard.Users.{User}
use human_guard.Jwt.{
  ReadsBack, generate_token_with_session_id, validate_token,
  validate_token-generate_token_with_session_id,
}
use human_guard.Auth.{Identity, Claims, passed, authenticate}
use human_guard.Auth.Tokens.{token_of, IsBearer, token_identity, authenticate_token}
use human_guard.Accounts.{Portal, PortalEnv, auth_state, auth_env, show_user}
use human_guard.Accounts.Login.{LoginBody, login, admit, open_for, run_login_job}
use human_guard.Accounts.Credentials.{Knows, login-Knows}
use human_guard.Reply.{json}

-- What the environment is in a later request.
abbrev pub later_env : Time → String → PortalEnv → PortalEnv
later_env later fresh env = record env { now = later; new_session_id = fresh }

-- Who a user is that has logged in.
abbrev pub logged_in_identity : PortalEnv → User → Identity
logged_in_identity env user = record {
  user_id = user.id;
  role = user.role;
  session_id = env.new_session_id;
  api_key_id = "";
}

abbrev pub claims_of : PortalEnv → User → Claims
claims_of env user = record { user_id = user.id; role = user.role; session_id = env.new_session_id }

run_login_job-sessions :
    (env : PortalEnv) (job : Option String) (p : Portal)
    → (run_login_job env job p).sessions ≡ p.sessions
unfolding run_login_job
run_login_job-sessions env none p = refl
run_login_job-sessions env (some id) p = refl

-- A bearer of a valid token passes while the session it names is in force.
pub bearer_passes :
    (env : PortalEnv) (r : Request) (p : Portal) (c : Claims) (s : UserSession)
    → IsBearer r
    → validate_token env.jwt env.now env.new_session_id (token_of r) ≡ some c
    → lookup c.session_id p.sessions ≡ some s
    → env.now ≤ s.expires_at
    → (authenticate (auth_env env) r (auth_state p)).access ≡ passed (token_identity c)
bearer_passes env r p c s bearer valid there early =
    (authenticate_token (auth_env env) r (auth_state p) c bearer valid).0.1 (s, there, early)

abbrev pub login_of : Request → User → Login
login_of r user = record {
  user_id = user.id;
  email = user.email;
  role = user.role;
  ip = get_real_ip r;
  user_agent = r.user_agent;
}

admitted_sessions :
    (env : PortalEnv) (r : Request) (user : User) (p : Portal) (token : String)
    → generate_token_with_session_id env.jwt env.now user.id user.role env.new_session_id
      ≡ some token
    → (admit env r user p).portal.sessions ≡ (open_for env r user p).sessions
unfolding admit
admitted_sessions env r user p token made = rw (made, admit) refl

-- Whoever gives the credentials of a user gets a token with status 200, and a request that bears this token
-- is passed on as that user, with the role of the time of the login, until the session is `ttl` old or
-- the token a day. This holds whether or not the thread that writes the last login has run.
pub authenticate-login :
    (env : PortalEnv) (r r' : Request) (b : LoginBody) (p : Portal) (user : User)
    (token fresh : String) (later : Time)
    → ReadsBack env.jwt
    → (env.new_session_id == "") ≡ false
    → Knows env p b user
    → generate_token_with_session_id env.jwt env.now user.id user.role env.new_session_id
      ≡ some token
    → IsBearer r'
    → token_of r' ≡ token
    → later ≤ env.now + env.ttl
    → unix later < unix (env.now + 24 * hour)
    → let out = login env r (parsed b) p in
      (out.reply ≡ json 200 (record { token = token; user = show_user user }))
      × ((authenticate (auth_env (later_env later fresh env)) r' (auth_state out.portal)).access
          ≡ passed (logged_in_identity env user))
      × ((authenticate
            (auth_env (later_env later fresh env))
            r'
            (auth_state (run_login_job env out.job out.portal))).access
          ≡ passed (logged_in_identity env user))
unfolding admit open_for open_session
authenticate-login env r r' b p user token fresh later law named knows made bearer borne early day =
    let admitted : login env r (parsed b) p ≡ admit env r user p =
      login-Knows env r b p user knows in
    let out = login env r (parsed b) p in
    let valid : validate_token env.jwt later fresh (token_of r') ≡ some (claims_of env user) =
      ap (validate_token env.jwt later fresh) borne
      ∙ validate_token-generate_token_with_session_id env.jwt env.now later fresh user.id user.role
          env.new_session_id token law named day made in
    let there : out.portal.sessions ≡ (open_for env r user p).sessions =
      ap (λ o. o.portal.sessions) admitted ∙ admitted_sessions env r user p token made in
    let open_ : lookup env.new_session_id out.portal.sessions
        ≡ some (opened env.ttl env.now env.new_session_id (login_of r user)) =
      ap (lookup env.new_session_id) there ∙ lookup-insert_self _ _ _ in
    (
      ap (λ o. o.reply) admitted ∙ rw (made, admit) refl,
      bearer_passes (later_env later fresh env) r' out.portal (claims_of env user) _ bearer valid
          open_ early,
      bearer_passes (later_env later fresh env) r' (run_login_job env out.job out.portal)
          (claims_of env user) _ bearer valid
          (ap (lookup env.new_session_id) (run_login_job-sessions env out.job out.portal) ∙ open_)
          early,
    )

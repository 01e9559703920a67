-- ===== src/Accounts/Takeover.antt =====
-- backend/auth/oauth.go with backend/handlers/user.go: what an address that GitHub has not verified is
-- good for.
use human_guard.Base.{
  lookup-insert_self, ◌+◌, ◌*◌, ◌≤◌, ◌<◌, String, ◌≡◌, refl, ap, ◌∙◌, ◌≢◌, true, false, ◌&&◌, some,
  List, [], ◌∷◌, arith, ◌==◌, eq_iff, if◌then◌else◌, All, lookup,
}
use human_guard.Errors.{Error, ok, err}
use human_guard.Clock.{Time, hour, unix}
use human_guard.Http.{Request}
use human_guard.UserSessions.{opened, open_session}
use human_guard.Users.{User, get_user_by_email}
use human_guard.Users.Links.{get_or_create_user_by_oauth, get_user_by_oauth}
use human_guard.Jwt.{
  ReadsBack, generate_token_with_session_id, validate_token,
  validate_token-generate_token_with_session_id,
}
use human_guard.Auth.{passed, authenticate}
use human_guard.Auth.Tokens.{token_of, IsBearer}
use human_guard.Accounts.{Portal, PortalEnv, auth_state, auth_env}
use human_guard.Accounts.Login.{open_for}
use human_guard.Accounts.Journey.{later_env, claims_of, login_of, bearer_passes}
use human_guard.Accounts.Oauth.{
  github, GithubUser, GithubEmail, primary_email, chosen_email, github_user_info, redirect,
  Callback, OauthService, state_matches, answer_token, sign_in, oauth_callback,
}

-- A list of addresses none of which is both primary and verified.
abbrev pub HasNoVerified : List GithubEmail → Type 0
HasNoVerified emails = All (λ e. (e.primary && e.verified) ≡ false) emails

primary_email_none :
    (emails : List GithubEmail) → HasNoVerified emails → primary_email "" emails ≡ ""
unfolding primary_email
primary_email_none [] h = refl
primary_email_none (e ∷ es) h = ground (arith, primary_email_none es h.1)

oauth_callback_admits :
    (env : PortalEnv) (service : OauthService) (c : Callback) (p : Portal) (u : GithubUser)
    (e : GithubEmail) (rest : List GithubEmail) (access : String) (user : User) (missing : Error)
    → state_matches c ≡ true
    → service.exchange_code c.code ≡ some access
    → service.get_user_info access ≡ github_user_info u (some (e ∷ rest))
    → u.email ≡ ""
    → HasNoVerified (e ∷ rest)
    → e.email ≢ ""
    → get_user_by_oauth env.faults "github" u.id p.db ≡ err missing
    → get_user_by_email env.table env.faults e.email p.db ≡ ok user
    → ((oauth_callback env service github c p).0.sessions
        ≡ (open_for env c.request user p).sessions)
      × ((oauth_callback env service github c p).1
          ≡ answer_token github
              (generate_token_with_session_id env.jwt env.now user.id user.role env.new_session_id)
              user)
unfolding oauth_callback sign_in github_user_info chosen_email get_or_create_user_by_oauth open_for
oauth_callback_admits env service c p u e rest access user missing state exchanged told private
      unverified given unlinked held =
    let none_chosen = primary_email_none (e ∷ rest) unverified in
    let some_given : (e.email == "") ≡ false = ground (arith, eq_iff e.email "") in
    let info : service.get_user_info access
        ≡ some (record {
          id = u.id;
          email = e.email;
          name = if u.name == "" then u.login else u.name;
        }) =
      told ∙ rw (private, chosen_email, none_chosen, some_given) refl in
    rw (state, exchanged, info, sign_in, get_or_create_user_by_oauth, unlinked, held) (refl, refl)

-- A GitHub account without a public address takes over the user that is registered under the first
-- address of its list, although GitHub says that this address is not verified, when none of the list
-- is both primary and verified and the account is not linked yet: the callback answers with a
-- redirect alone, which names the user and carries a token, and a request that bears this token is
-- passed on as that user, with the user's role, until the session is `ttl` old or the token a day.
pub oauth_callback_unverified :
    (env : PortalEnv) (service : OauthService) (c : Callback) (p : Portal) (u : GithubUser)
    (e : GithubEmail) (rest : List GithubEmail) (access : String) (user : User) (missing : Error)
    (token fresh : String) (later : Time) (r : Request)
    → state_matches c ≡ true
    → service.exchange_code c.code ≡ some access
    → service.get_user_info access ≡ github_user_info u (some (e ∷ rest))
    → u.email ≡ ""
    → HasNoVerified (e ∷ rest)
    → e.verified ≡ false
    → e.email ≢ ""
    → get_user_by_oauth env.faults "github" u.id p.db ≡ err missing
    → get_user_by_email env.table env.faults e.email p.db ≡ ok user
    → ReadsBack env.jwt
    → (env.new_session_id == "") ≡ false
    → generate_token_with_session_id env.jwt env.now user.id user.role env.new_session_id
      ≡ some token
    → IsBearer r
    → token_of r ≡ token
    → later ≤ env.now + env.ttl
    → unix later < unix (env.now + 24 * hour)
    → let out = oauth_callback env service github c p in
      (out.1 ≡ redirect token user.id user.email user.role ∷ [])
      × ((authenticate (auth_env (later_env later fresh env)) r (auth_state out.0)).access
          ≡ passed (record {
            user_id = user.id;
            role = user.role;
            session_id = env.new_session_id;
            api_key_id = "";
          }))
unfolding open_for open_session
oauth_callback_unverified env service c p u e rest access user missing token fresh later r state
      exchanged told private unverified first given unlinked held law named made bearer borne early
      day =
    let (sessions, answer) =
      oauth_callback_admits env service c p u e rest access user missing state exchanged told
        private unverified given unlinked held in
    let valid : validate_token env.jwt later fresh (token_of r) ≡ some (claims_of env user) =
      ap (validate_token env.jwt later fresh) borne
      ∙ validate_token-generate_token_with_session_id env.jwt env.now later fresh user.id user.role
          env.new_session_id token law named day made in
    let q = (oauth_callback env service github c p).0 in
    let stored : lookup env.new_session_id q.sessions
        ≡ some (opened env.ttl env.now env.new_session_id (login_of c.request user)) =
      ap (lookup env.new_session_id) sessions ∙ lookup-insert_self _ _ _ in
    (
      answer ∙ ap (λ o. answer_token github o user) made,
      bearer_passes (later_env later fresh env) r q (claims_of env user) _ bearer valid stored
          early,
    )

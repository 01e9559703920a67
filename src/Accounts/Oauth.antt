-- ===== src/Accounts/Oauth.antt =====
-- backend/auth/oauth.go and the sign-in through a provider of backend/handlers/user.go. What the
-- provider answers is an argument: the token for a code, and the decoded documents.
use human_guard.Base.{
  ℕ, String, Bool, true, false, not, ◌&&◌, Option, none, some, List, [], ◌∷◌, ◌==◌, if◌then◌else◌,
}
use human_guard.Errors.{Result, ok, err}
use human_guard.Http.{Request, Cookie, seconds, unset}
use human_guard.Users.{User}
use human_guard.Users.Links.{OauthUserInfo, Drawn, get_or_create_user_by_oauth}
use human_guard.Jwt.{generate_token_with_session_id}
use human_guard.Accounts.{Portal, PortalEnv}
use human_guard.Accounts.Login.{open_for}

pub data Provider : Type 0 where
  keycloak google github : Provider

abbrev pub provider_name : Provider → String
provider_name keycloak = "keycloak"
provider_name google = "google"
provider_name github = "github"

pub record GithubUser : Type 0 where
  pub id : String
  pub login : String
  pub name : String
  pub email : String

pub record GithubEmail : Type 0 where
  pub email : String
  pub primary : Bool
  pub verified : Bool

-- The first address that is both primary and verified, or else the one that is held.
unfoldable pub primary_email : String → List GithubEmail → String
primary_email held [] = held
primary_email held (e ∷ es) = if e.primary && e.verified then e.email else primary_email held es

abbrev pub first_email : List GithubEmail → String
first_email [] = ""
first_email (e ∷ es) = e.email

-- The first address of all, verified or not, stands in when none is chosen.
unfoldable pub chosen_email : List GithubEmail → String
chosen_email emails =
    let chosen = primary_email "" emails in if chosen == "" then first_email emails else chosen

-- The address of the profile, or one of the list, whose request may fail.
abbrev pub github_email : GithubUser → Option (List GithubEmail) → Option String
github_email u emails =
    if not (u.email == "")
    then some u.email
    else elim emails [ none ↦ none | some list ↦ some (chosen_email list) ]

unfoldable pub github_user_info : GithubUser → Option (List GithubEmail) → Option OauthUserInfo
github_user_info u emails = elim (github_email u emails) [
  | none ↦ none
  | some email ↦
      if email == ""
      then none
      else some
          (record { id = u.id; email = email; name = if u.name == "" then u.login else u.name })
]

-- What the writes to the response are, in order; the first one sets the status.
pub data Write : Type 0 where
  failure : ℕ → String → Write
  -- The front end's page, with the token and three fields of the user in its query.
  redirect : String → String → String → String → Write

-- `state` and `code` of the query, and the cookie `oauth_state`.
pub record Callback : Type 0 where
  pub request : Request
  pub state : String
  pub code : String
  pub state_cookie : Option String

-- A provider's answers: the token for a code, and the account for a token.
pub record OauthService : Type 0 where
  pub exchange_code : String → Option String
  pub get_user_info : String → Option OauthUserInfo

abbrev pub state_matches : Callback → Bool
state_matches c = elim c.state_cookie [ none ↦ false | some value ↦ value == c.state ]

-- The Keycloak callback does not look at the state.
abbrev pub passes_state : Provider → Callback → Bool
passes_state keycloak c = true
passes_state google c = state_matches c
passes_state github c = state_matches c

abbrev pub redirect_oauth_success : String → User → Write
redirect_oauth_success token user = redirect token user.id user.email user.role

-- The GitHub callback goes on after a token that could not be signed, with an empty one.
abbrev pub answer_token : Provider → Option String → User → List Write
answer_token provider (some token) user = redirect_oauth_success token user ∷ []
answer_token keycloak none user = failure 500 "token" ∷ []
answer_token google none user = failure 500 "token" ∷ []
answer_token github none user = failure 500 "token" ∷ redirect_oauth_success "" user ∷ []

abbrev pub admit_oauth :
    PortalEnv → Provider → Callback → Result User → Portal → Portal × List Write
admit_oauth env provider c (err e) p = (p, failure 500 "user" ∷ [])
admit_oauth env provider c (ok user) p = (
  open_for env c.request user p,
  answer_token provider
      (generate_token_with_session_id env.jwt env.now user.id user.role env.new_session_id) user,
)

unfoldable pub sign_in :
    PortalEnv → Provider → Callback → OauthUserInfo → Portal → Portal × List Write
sign_in env provider c info p =
    let drawn : Drawn = record { user_id = env.new_user_id; link_id = env.new_link_id } in
    let (db, user) =
      get_or_create_user_by_oauth env.table env.faults env.now drawn (provider_name provider) info
        p.db in
    admit_oauth env provider c user (record p { db = db })

unfoldable pub oauth_callback :
    PortalEnv → OauthService → Provider → Callback → Portal → Portal × List Write
oauth_callback env service provider c p =
    if not (passes_state provider c)
    then (p, failure 400 "Invalid state" ∷ [])
    else elim (service.exchange_code c.code) [
      | none ↦ (p, failure 500 "exchange" ∷ [])
      | some token ↦ elim (service.get_user_info token) [
        | none ↦ (p, failure 500 "user info" ∷ [])
        | some info ↦ sign_in env provider c info p
      ]
    ]

-- The three login handlers: the drawn state goes into a cookie and to the provider.
abbrev pub oauth_state_cookie : String → Cookie
oauth_state_cookie state = record {
  name = "oauth_state";
  value = state;
  path = "/";
  http_only = true;
  secure = true;
  same_site = unset;
  max_age = seconds 600;
}

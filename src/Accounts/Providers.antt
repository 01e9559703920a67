-- ===== src/Accounts/Providers.antt =====
-- Who a sign-in through a provider ends as.
use human_guard.Base.{
  String, ◌≡◌, refl, sym, ap, ◌∙◌, false, Option, none, some, List, [], ◌∷◌, arith, ◌==◌, any_of,
}
use human_guard.Errors.{Result, ok, err}
use human_guard.Clock.{Time}
use human_guard.Users.{User, UserDb, select_link, insert_link}
use human_guard.Users.Links.{OauthUserInfo, Drawn, get_or_create_user_by_oauth}
use human_guard.Users.Constraints.{IsSound}
use human_guard.Users.FirstLogin.{get_or_create_user_by_oauth_again}
use human_guard.Jwt.{generate_token_with_session_id}
use human_guard.Accounts.{Portal, PortalEnv}
use human_guard.Accounts.Login.{open_for}
use human_guard.Accounts.Oauth.{
  Provider, keycloak, google, github, provider_name, Write, redirect, Callback, answer_token,
  admit_oauth, sign_in,
}

-- What a request draws.
abbrev pub drawn_of : PortalEnv → Drawn
drawn_of env = record { user_id = env.new_user_id; link_id = env.new_link_id }

abbrev found_or_made : PortalEnv → Provider → OauthUserInfo → Portal → UserDb × Result User
found_or_made env provider info p =
    get_or_create_user_by_oauth env.table env.faults env.now (drawn_of env) (provider_name provider)
      info p.db

-- The identifier of the user that a redirect to the front end names.
abbrev pub redirected_to : List Write → Option String
redirected_to [] = none
redirected_to (redirect token id email role ∷ rest) = some id
redirected_to (w ∷ rest) = redirected_to rest

answer_token-redirect :
    (provider : Provider) (token : Option String) (user : User) (id : String)
    → redirected_to (answer_token provider token user) ≡ some id
    → user.id ≡ id
answer_token-redirect provider (some token) user id e = ground arith
answer_token-redirect keycloak none user id e = ground arith
answer_token-redirect google none user id e = ground arith
answer_token-redirect github none user id e = ground arith

admitted_user :
    (env : PortalEnv) (provider : Provider) (c : Callback) (p : Portal) (r : UserDb × Result User)
    (id : String)
    → redirected_to (admit_oauth env provider c r.1 (record p { db = r.0 })).1 ≡ some id
    → (user : User) × (r ≡ (r.0, ok user))
      × ((admit_oauth env provider c r.1 (record p { db = r.0 })).0.db ≡ r.0)
      × (user.id ≡ id)
unfolding open_for
admitted_user env provider c p (db, err e) id sent = ground arith
admitted_user env provider c p (db, ok user) id sent = (
  user,
  refl,
  refl,
  answer_token-redirect provider
      (generate_token_with_session_id env.jwt env.now user.id user.role env.new_session_id) user id
      sent,
)

-- Two sign-ins at a provider with the same account, whatever email and name the provider tells the second
-- time and whatever the callbacks carry, send the visitor on as the same user. The tables are sound at
-- the first, the identifier of its link is fresh, and the database answers about links.
pub sign_in_again :
    (env : PortalEnv) (provider : Provider) (c c' : Callback) (info info' : OauthUserInfo)
    (p : Portal) (later : Time) (user_id link_id session_id id id' : String)
    → IsSound p.db
    → env.faults select_link ≡ false
    → env.faults insert_link ≡ false
    → any_of (λ l. l.id == env.new_link_id) p.db.links ≡ false
    → info'.id ≡ info.id
    → redirected_to (sign_in env provider c info p).1 ≡ some id
    → (let env' = record env {
      now = later;
      new_user_id = user_id;
      new_link_id = link_id;
      new_session_id = session_id;
    } in
        redirected_to (sign_in env' provider c' info' (sign_in env provider c info p).0).1
        ≡ some id')
    → id' ≡ id
unfolding sign_in
sign_in_again env provider c c' info info' p later user_id link_id session_id id id' sound up up'
      unused account sent sent' =
    let r = found_or_made env provider info p in
    let (user, made, stored, named) = admitted_user env provider c p r id sent in
    let env' : PortalEnv = record env {
      now = later;
      new_user_id = user_id;
      new_link_id = link_id;
      new_session_id = session_id;
    } in
    let q = (sign_in env provider c info p).0 in
    let r' = found_or_made env' provider info' q in
    let (user', made', stored', named') = admitted_user env' provider c' q r' id' sent' in
    let again : found_or_made env' provider info' q ≡ (r.0, ok user) =
      ap (λ d. found_or_made env' provider info' (record q { db = d })) stored
      ∙ get_or_create_user_by_oauth_again env.table env.faults env.now later (drawn_of env)
          (drawn_of env') (provider_name provider) info info' p.db r.0 user sound up up' unused
          account made in
    let same : ok user' ≡ ok user = sym (ap (λ x. x.1) made') ∙ ap (λ x. x.1) again in ground arith

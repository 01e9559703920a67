-- ===== src/Auth/Keys.antt =====
-- Which API keys open the API, from the table of keys to the middleware.
use human_guard.Base.{
  byte_len, codes, has_prefix, ◌≤◌, String, ◌≡◌, refl, ap, ◌∙◌, inl, inr, true, false, some, arith,
  ◌==◌, Option-cases,
}
use human_guard.ApiKeys.{ApiKey, get_api_key_by_hash, find_key, has_hash, select_key}
use human_guard.Http.{Request, header}
use human_guard.Users.{User, find_user}
use human_guard.Auth.{
  AuthEnv, AuthState, Identity, KeyCheck, rejected, orphaned, accepted, has_expired, check_owner,
  check_key, validate_api_key, passed, pass_key, authenticate, api_key_prefix,
}

-- The key is in the table under the hash of the text that was sent, in force, and its user exists.
abbrev pub IsGood : AuthEnv → AuthState → String → ApiKey → User → Type 0
IsGood env st text key user =
    (find_key (has_hash (env.key_hash text)) st.keys ≡ some key)
    × (key.revoked ≡ false)
    × (has_expired env.now key ≡ false)
    × (find_user key.user_id st.users ≡ some user)

-- The identity that a key gives: that of its user, and the key's own identifier.
abbrev pub key_identity : ApiKey → User → Identity
key_identity key user = record {
  user_id = user.id;
  role = user.role;
  session_id = "";
  api_key_id = key.id;
}

validate_api_key_good :
    (env : AuthEnv) (text : String) (st : AuthState) (key : ApiKey) (user : User)
    → has_prefix (codes text) (codes api_key_prefix) ≡ true
    → env.faults select_key ≡ false
    → env.users_fail ≡ false
    → IsGood env st text key user
    → validate_api_key env text st ≡ accepted user key.id
unfolding validate_api_key get_api_key_by_hash check_key check_owner
validate_api_key_good env text st key user shape up users good =
    rw (shape, up, good.0, good.1, good.2, users, good.3) refl

-- A request whose API key has the program's prefix, is stored, is neither revoked nor expired, and
-- belongs to a user that exists, is passed on with that user's identifier and role, while the
-- database answers and the key's identifier has eight bytes. The sessions are left alone, and the
-- key is marked as used.
pub authenticate_good_key :
    (env : AuthEnv) (r : Request) (st : AuthState) (key : ApiKey) (user : User)
    → (header "X-API-Key" r == "") ≡ false
    → has_prefix (codes (header "X-API-Key" r)) (codes api_key_prefix) ≡ true
    → env.faults select_key ≡ false
    → env.users_fail ≡ false
    → IsGood env st (header "X-API-Key" r) key user
    → 8 ≤ byte_len (codes key.id)
    → authenticate env r st
      ≡ record { state = st; access = passed (key_identity key user); key_used = some key.id }
unfolding authenticate pass_key
authenticate_good_key env r st key user sent shape up users good long =
    rw (sent, validate_api_key_good env (header "X-API-Key" r) st key user shape up users good)
      (ground arith)

validate_api_key_accepted :
    (env : AuthEnv) (text : String) (st : AuthState) (user : User) (id : String)
    → validate_api_key env text st ≡ accepted user id
    → (key : ApiKey) × IsGood env st text key user × (id ≡ key.id)
unfolding validate_api_key get_api_key_by_hash check_key check_owner
validate_api_key_accepted env text st user id e =
    elim (Option-cases (find_key (has_hash (env.key_hash text)) st.keys)) [
      | inl missing ↦ ground arith
      | inr (key, found) ↦ elim (Option-cases (find_user key.user_id st.users)) [
        | inl gone ↦ ground arith
        | inr (owner, owned) ↦ (key, ground arith, ground arith)
      ]
    ]

pass_key_passed :
    (st : AuthState) (c : KeyCheck) (who : Identity)
    → (pass_key st c).access ≡ passed who
    → (user : User) × (id : String) × (c ≡ accepted user id)
      × (who ≡ record { user_id = user.id; role = user.role; session_id = ""; api_key_id = id })
unfolding pass_key
pass_key_passed st (rejected message) who through = ground arith
pass_key_passed st (orphaned id) who through = ground arith
pass_key_passed st (accepted user id) who through = (user, id, refl, ground arith)

-- A request with an API key is passed on only for a key that is stored under its hash, not revoked,
-- not expired, and whose user exists; the identity is that user's. A bearer token beside it is not
-- looked at.
pub authenticate_key_passed :
    (env : AuthEnv) (r : Request) (st : AuthState) (who : Identity)
    → (header "X-API-Key" r == "") ≡ false
    → (authenticate env r st).access ≡ passed who
    → (key : ApiKey) × (user : User) × IsGood env st (header "X-API-Key" r) key user
      × (who ≡ key_identity key user)
unfolding authenticate
authenticate_key_passed env r st who sent through =
    let checked =
      pass_key_passed st (validate_api_key env (header "X-API-Key" r) st) who (ground arith) in
    let (user, id, found, same) = checked in
    let (key, good, named) =
      validate_api_key_accepted env (header "X-API-Key" r) st user id found in
    (
      key,
      user,
      good,
      same
          ∙ ap
              (λ i. record { user_id = user.id; role = user.role; session_id = ""; api_key_id = i })
              named,
    )

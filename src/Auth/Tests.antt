-- ===== src/Auth/Tests.antt =====
-- Authentication on concrete requests.
use Prim.Native.String.{◌++◌ as concat}
use human_guard.Base.{
  ◌+◌, String, ◌≡◌, refl, ap, false, none, some, [], ◌∷◌, arith, ◌==◌, if◌then◌else◌, lookup,
}
use human_guard.Clock.{minute, hour}
use human_guard.ApiKeys.{ApiKey, revoke_api_key, delete_api_key, find_key}
use human_guard.UserSessions.{UserSession, opened}
use human_guard.Http.{Request}
use human_guard.Users.{User, find_user}
use human_guard.Auth.{Claims, AuthEnv, AuthState, passed, refuse, authenticate}
use human_guard.Auth.Keys.{IsGood, key_identity, authenticate_good_key, authenticate_key_passed}
use human_guard.Auth.Revoked.{with_keys, authenticate-revoke_api_key}
use human_guard.Samples.{ann, noon, no_key_faults, key, ask}

abbrev hashed : String → String
hashed text = concat "hash of " text

abbrev claims : Claims
claims = record { user_id = "u1"; role = "admin"; session_id = "s1" }

abbrev env : AuthEnv
env = record {
  key_hash = hashed;
  validate_token = λ t. if t == "token" then some claims else none;
  faults = no_key_faults;
  users_fail = false;
  ttl = hour;
  now = noon + minute;
}

abbrev session : UserSession
session =
    opened hour noon "s1"
      (record { user_id = "u1"; email = ""; role = "admin"; ip = ""; user_agent = "" })

abbrev state : AuthState
state = record { keys = key ∷ []; users = ann ∷ []; sessions = ("s1", session) ∷ [] }

abbrev with_key : Request
with_key = ask "GET" (("X-API-Key", "hg_v1_secret") ∷ [])

key-IsGood : IsGood env state "hg_v1_secret" key ann
unfolding find_key find_user
key-IsGood = (refl, refl, refl, refl)

key_passes :
    authenticate env with_key state
    ≡ record { state = state; access = passed (key_identity key ann); key_used = some key.id }
unfolding lookup
key_passes =
    authenticate_good_key env with_key state key ann refl refl refl refl key-IsGood (omega arith)

authenticate_key_passed_example :
    (k : ApiKey) × (u : User) × IsGood env state "hg_v1_secret" k u
    × (key_identity key ann ≡ key_identity k u)
unfolding lookup
authenticate_key_passed_example =
    authenticate_key_passed env with_key state (key_identity key ann) refl
      (ap (λ p. p.access) key_passes)

authenticate-revoke_api_key_example :
    (let st = with_keys state (revoke_api_key no_key_faults key.id state.keys).0 in
      authenticate env with_key st ≡ refuse st "invalid api key")
    × (let st = with_keys state (delete_api_key no_key_faults key.id state.keys).0 in
        authenticate env with_key st ≡ refuse st "invalid api key")
unfolding lookup find_key
authenticate-revoke_api_key_example =
    authenticate-revoke_api_key env no_key_faults with_key state key (tt, tt) refl refl refl refl

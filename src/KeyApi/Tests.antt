-- ===== src/KeyApi/Tests.antt =====
-- The handlers of API keys on concrete requests.
use human_guard.Base.{pos, ◌+◌, ◌*◌, ◌≡◌, refl, ◌⊎◌, false, some, [], ◌∷◌, arith, lookup}
use human_guard.Clock.{hour}
use human_guard.Http.{parsed, empty, Request}
use human_guard.ApiKeys.{find_key, create_api_key, get_api_key_by_hash}
use human_guard.Users.{find_user}
use human_guard.Auth.{
  Identity, passed, authenticate, validate_api_key, check_key, check_owner, pass_key,
}
use human_guard.Accounts.{auth_env, auth_state}
use human_guard.Accounts.Journey.{later_env}
use human_guard.Accounts.Samples.{ann_secured, portal, portal_env}
use human_guard.KeyApi.{
  CreateApiKeyRequest, ApiKeyResponse, KeyDraw, serve_create_api_key, serve_revoke_api_key,
  serve_delete_api_key, store_key, bad_days,
}
use human_guard.KeyApi.Creation.{authenticate-serve_create_api_key}
use human_guard.KeyApi.Management.{MayTouch, keys_guarded, keys_manage_no_keys}
use human_guard.Reply.{json_error}
use human_guard.Samples.{in_1970, ask}

abbrev ann_identity : Identity
ann_identity = record { user_id = "u1"; role = "admin"; session_id = "s1"; api_key_id = "" }

abbrev draw : KeyDraw
draw = record { hex = some "c0ffee"; id = "02-key-of-ann" }

abbrev for_ci : CreateApiKeyRequest
for_ci = record { name = "ci"; expires_in_days = some (pos 1) }

abbrev answer : ApiKeyResponse
answer = record {
  id = "02-key-of-ann";
  name = "ci";
  key = "hg_v1_c0ffee";
  prefix = "hg_v1_";
  created_at = in_1970;
  expires_at = some (in_1970 + 24 * hour);
  revoked = false;
}

abbrev with_new_key : Request
with_new_key = ask "GET" (("X-API-Key", "hg_v1_c0ffee") ∷ [])

authenticate-serve_create_api_key_example :
    (authenticate (auth_env (later_env (in_1970 + hour) "s9" portal_env)) with_new_key (
      auth_state
        (serve_create_api_key portal_env draw ann_identity (parsed for_ci) portal).0)).access
    ≡ passed
        (record { user_id = "u1"; role = "admin"; session_id = ""; api_key_id = "02-key-of-ann" })
unfolding serve_create_api_key store_key bad_days create_api_key lookup find_user
authenticate-serve_create_api_key_example =
    authenticate-serve_create_api_key portal_env draw ann_identity for_ci portal answer
      (in_1970 + hour) "s9" with_new_key ann_secured refl refl refl refl refl refl (omega arith)

abbrev keyed : Request
keyed = ask "GET" (("X-API-Key", "hg_v1_secret") ∷ [])

abbrev key_identity : Identity
key_identity = record {
  user_id = "u1";
  role = "admin";
  session_id = "";
  api_key_id = "01-key-of-ann";
}

keys_manage_no_keys_example :
    (serve_create_api_key portal_env draw key_identity empty portal
      ≡ (portal, json_error 403 "API keys cannot create new API keys. Use JWT authentication."))
    × (serve_revoke_api_key portal_env key_identity "01-key-of-ann" portal
        ≡ (portal, json_error 403 "API keys cannot revoke API keys. Use JWT authentication."))
    × (serve_delete_api_key portal_env key_identity "01-key-of-ann" portal
        ≡ (portal, json_error 403 "API keys cannot delete API keys. Use JWT authentication."))
unfolding authenticate validate_api_key get_api_key_by_hash check_key check_owner pass_key find_key
    find_user lookup
keys_manage_no_keys_example =
    keys_manage_no_keys portal_env portal_env keyed portal portal key_identity draw empty
      "01-key-of-ann" refl refl

keys_guarded_example :
    MayTouch portal_env ann_identity "01-key-of-ann" portal
    ⊎ (((serve_revoke_api_key portal_env ann_identity "01-key-of-ann" portal).0 ≡ portal)
        × ((serve_delete_api_key portal_env ann_identity "01-key-of-ann" portal).0 ≡ portal))
keys_guarded_example = keys_guarded portal_env ann_identity "01-key-of-ann" portal

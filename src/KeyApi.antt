-- ===== src/KeyApi.antt =====
-- backend/handlers/api_keys.go: the handlers of API keys. The random bytes of a key, in hexadecimal, are
-- an argument, as is the identifier that its row gets; the hash is the one of the middleware.
pub mod Creation
pub mod Management
mod Tests
use Prim.Native.String.{◌++◌ as concat}
use human_guard.Base.{
  ℤ, pos, negsuc, positive_part, ◌/◌, ◌%◌, Char, lower_text, upper_text, byte_len, codes,
  has_prefix, Pairwise, All-weaken, All-keep, ℕ, zero, suc, ◌+◌, ◌-◌, ◌*◌, ◌≤◌, ◌<◌, String, ◌≡◌,
  refl, sym, ap, ◌∙◌, ◌≢◌, ◌↔◌, ◌⊎◌, inl, inr, Bool, true, false, not, ◌&&◌, ◌||◌, Option, none,
  some, List, [], ◌∷◌, map, arith, ◌==◌, eq_iff, eq_refl, ltb, leb, eqb, if◌then◌else◌, Bool-cases,
  Option-cases, length, keep, count_if, any_of, All, Dict, lookup, insert, delete, adjust,
}
use human_guard.Errors.{Error, Result, ok, err}
use human_guard.Clock.{Time, hour, duration, add_duration}
use human_guard.Http.{Body, parsed}
use human_guard.ApiKeys.{
  ApiKey, create_api_key, get_api_key_by_id, list_api_keys, list_all_api_keys, revoke_api_key,
  delete_api_key,
}
use human_guard.Users.{User, list_users}
use human_guard.Auth.{Identity, api_key_prefix}
use human_guard.Accounts.{Portal, PortalEnv}
use human_guard.Reply.{Reply, json_error, json, no_content}

pub record CreateApiKeyRequest : Type 0 where
  pub name : String
  pub expires_in_days : Option ℤ

pub record ApiKeyResponse : Type 0 where
  pub id : String
  pub name : String
  pub key : String
  pub prefix : String
  pub created_at : Time
  pub expires_at : Option Time
  pub revoked : Bool

pub record ApiKeyListResponse : Type 0 where
  pub id : String
  pub name : String
  pub prefix : String
  pub created_at : Time
  pub expires_at : Option Time
  pub last_used_at : Option Time
  pub revoked : Bool

pub record AdminApiKeyListResponse : Type 0 where
  pub key : ApiKeyListResponse
  pub user_id : String
  pub user_email : String
  pub user_name : String
  pub user_role : String

-- The bytes of the new key in hexadecimal, unless the random source fails, and the row's identifier.
pub record KeyDraw : Type 0 where
  pub hex : Option String
  pub id : String

-- Why a number of days is refused.
unfoldable pub bad_days : Option ℤ → Option String
bad_days none = none
bad_days (some n) =
    if not (ltb 0 (positive_part n))
    then some "expires_in must be a positive integer"
    else if ltb 36500 (positive_part n)
    then some "expires_in cannot exceed 36500 days"
    else none

abbrev pub expires_at_of : Time → Option ℤ → Option Time
expires_at_of now none = none
expires_at_of now (some n) =
    if ltb 0 (positive_part n)
    then some (add_duration now (duration (positive_part n) (24 * hour)))
    else none

abbrev pub new_key : PortalEnv → Identity → CreateApiKeyRequest → String → ApiKey
new_key env who b key_raw = record {
  id = "";
  user_id = who.user_id;
  name = b.name;
  key_hash = env.key_hash key_raw;
  prefix = api_key_prefix;
  last_used_at = none;
  expires_at = expires_at_of env.now b.expires_in_days;
  created_at = 0;
  revoked = false;
  created_by = some who.user_id;
}

abbrev pub with_keys : Portal → List ApiKey → Portal
with_keys p keys = record p { db = record (p.db) { keys = keys } }

abbrev pub key_reply : Portal → String → List ApiKey × Result ApiKey → Portal × Reply ApiKeyResponse
key_reply p key_raw (keys, err e) = (with_keys p keys, json_error 500 "failed to create API key")
key_reply p key_raw (keys, ok k) = (
  with_keys p keys,
  json 201 (record {
    id = k.id;
    name = k.name;
    key = key_raw;
    prefix = k.prefix;
    created_at = k.created_at;
    expires_at = k.expires_at;
    revoked = false;
  }),
)

unfoldable pub store_key :
    PortalEnv → KeyDraw → Identity → CreateApiKeyRequest → Portal → Portal × Reply ApiKeyResponse
store_key env draw who b p = elim draw.hex [
  | none ↦ (p, json_error 500 "failed to generate key")
  | some hex ↦
      let key_raw = concat api_key_prefix hex in
      key_reply p key_raw
        (create_api_key env.key_faults env.now draw.id (new_key env who b key_raw) p.db.keys)
]

-- The context never carries the identifier that `GetAPIKeyUserID` looks for: a requester without a
-- user is unauthorized.
unfoldable pub serve_create_api_key :
    PortalEnv
    → KeyDraw
    → Identity
    → Body CreateApiKeyRequest
    → Portal
    → Portal × Reply ApiKeyResponse
serve_create_api_key env draw who body p =
    if not (who.api_key_id == "")
    then (p, json_error 403 "API keys cannot create new API keys. Use JWT authentication.")
    else if who.user_id == ""
    then (p, json_error 401 "unauthorized")
    else elim body [
      | parsed b ↦
          if b.name == ""
          then (p, json_error 400 "name is required")
          else elim (bad_days b.expires_in_days) [
            | some message ↦ (p, json_error 400 message)
            | none ↦ store_key env draw who b p
          ]
      | _ ↦ (p, json_error 400 "invalid request")
    ]

abbrev pub listed_key : ApiKey → ApiKeyListResponse
listed_key k = record {
  id = k.id;
  name = k.name;
  prefix = k.prefix;
  created_at = k.created_at;
  expires_at = k.expires_at;
  last_used_at = k.last_used_at;
  revoked = k.revoked;
}

unfoldable pub serve_list_api_keys : PortalEnv → Identity → Portal → Reply (List ApiKeyListResponse)
serve_list_api_keys env who p =
    if who.user_id == ""
    then json_error 401 "unauthorized"
    else elim (list_api_keys env.key_faults who.user_id p.db.keys) [
      | err e ↦ json_error 500 "failed to list API keys"
      | ok keys ↦ json 200 (map listed_key keys)
    ]

-- `key.UserID != userID && role != "admin"` is the refusal.
abbrev pub may_touch : Identity → ApiKey → Bool
may_touch who k = k.user_id == who.user_id || who.role == "admin"

abbrev pub on_found :
    Identity
    → Result (Option ApiKey)
    → Portal
    → Portal × Reply (Unit {0})
    → Portal × Reply (Unit {0})
on_found who (err e) p next = (p, json_error 404 "API key not found")
on_found who (ok none) p next = (p, json_error 404 "API key not found")
on_found who (ok (some k)) p next =
    if may_touch who k then next else (p, json_error 403 "not your API key")

-- What `RevokeAPIKey` and `DeleteAPIKey` do before they write.
abbrev pub on_own_key :
    PortalEnv
    → String
    → Identity
    → String
    → Portal
    → Portal × Reply (Unit {0})
    → Portal × Reply (Unit {0})
on_own_key env message who id p next =
    if not (who.api_key_id == "")
    then (p, json_error 403 message)
    else if id == ""
    then (p, json_error 400 "key id required")
    else if who.user_id == ""
    then (p, json_error 401 "unauthorized")
    else on_found who (get_api_key_by_id env.key_faults id p.db.keys) p next

abbrev pub written_reply :
    String → Portal → List ApiKey × Result (Unit {0}) → Portal × Reply (Unit {0})
written_reply message p (keys, err e) = (with_keys p keys, json_error 500 message)
written_reply message p (keys, ok _) = (with_keys p keys, no_content)

unfoldable pub serve_revoke_api_key :
    PortalEnv → Identity → String → Portal → Portal × Reply (Unit {0})
serve_revoke_api_key env who id p =
    on_own_key env "API keys cannot revoke API keys. Use JWT authentication." who id p
      (written_reply "failed to revoke key" p (revoke_api_key env.key_faults id p.db.keys))

unfoldable pub serve_delete_api_key :
    PortalEnv → Identity → String → Portal → Portal × Reply (Unit {0})
serve_delete_api_key env who id p =
    on_own_key env "API keys cannot delete API keys. Use JWT authentication." who id p
      (written_reply "failed to delete key" p (delete_api_key env.key_faults id p.db.keys))

-- The map of users by their identifiers: the last one wins.
unfoldable pub user_of : String → List User → Option User
user_of id [] = none
user_of id (u ∷ us) = elim (user_of id us) [
  | some v ↦ some v
  | none ↦ if u.id == id then some u else none
]

abbrev pub admin_listed : List User → ApiKey → AdminApiKeyListResponse
admin_listed users k = elim (user_of k.user_id users) [
  | none ↦ record {
    key = listed_key k;
    user_id = k.user_id;
    user_email = "";
    user_name = "";
    user_role = "";
  }
  | some u ↦ record {
    key = listed_key k;
    user_id = k.user_id;
    user_email = u.email;
    user_name = u.name;
    user_role = u.role;
  }
]

unfoldable pub serve_list_all_api_keys :
    PortalEnv → Identity → Portal → Reply (List AdminApiKeyListResponse)
serve_list_all_api_keys env who p =
    if not (who.role == "admin")
    then json_error 403 "admin access required"
    else elim (list_all_api_keys env.key_faults p.db.keys) [
      | err e ↦ json_error 500 "failed to list API keys"
      | ok keys ↦ elim (list_users env.faults p.db) [
        | err e ↦ json_error 500 "failed to list users"
        | ok users ↦ json 200 (map (admin_listed users) keys)
      ]
    ]

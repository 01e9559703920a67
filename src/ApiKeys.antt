-- ===== src/ApiKeys.antt =====
-- backend/storage/api_keys.go: the table `api_keys`.
-- `KeyFaults` says which statements the database refuses. The hash of a key is unique in the table.
pub mod Revocation
use human_guard.Base.{
  ℕ, zero, suc, ◌+◌, ◌-◌, ◌*◌, ◌≤◌, ◌<◌, String, ◌≡◌, refl, sym, ap, ◌∙◌, ◌≢◌, ◌↔◌, ◌⊎◌, inl, inr,
  Bool, true, false, not, ◌&&◌, ◌||◌, Option, none, some, List, [], ◌∷◌, ◌++◌, map, arith, ◌==◌,
  eq_iff, eq_refl, ltb, leb, eqb, if◌then◌else◌, Bool-cases, Option-cases, length, keep, count_if,
  any_of, All, Dict, lookup, insert, delete, adjust, ℤ, pos, negsuc, positive_part, ◌/◌, ◌%◌, Char,
  lower_text, upper_text, byte_len, codes, has_prefix, Pairwise, All-weaken, All-keep,
}
use human_guard.Errors.{Result, ok, err, api_key_not_found, api_key_hash_already_exists, database}
use human_guard.Clock.{Time, is_zero}

pub record ApiKey : Type 0 where
  pub id : String
  pub user_id : String
  pub name : String
  pub key_hash : String
  pub prefix : String
  pub last_used_at : Option Time
  pub expires_at : Option Time
  pub created_at : Time
  pub revoked : Bool
  pub created_by : Option String

pub data KeyQuery : Type 0 where
  insert_key select_key list_keys revoke_key touch_key delete_key : KeyQuery

abbrev pub KeyFaults : Type 0
KeyFaults = KeyQuery → Bool

abbrev pub stamped_key : Time → String → ApiKey → ApiKey
stamped_key now fresh k = record k {
  id = if k.id == "" then fresh else k.id;
  created_at = if is_zero k.created_at then now else k.created_at;
}

-- A clash with the unique columns, the identifier and the hash; the row starts unused and in force.
abbrev pub clashes_key : ApiKey → ApiKey → Bool
clashes_key k row = row.id == k.id || row.key_hash == k.key_hash

unfoldable pub create_api_key :
    KeyFaults → Time → String → ApiKey → List ApiKey → List ApiKey × Result ApiKey
create_api_key faults now fresh key rows =
    let k = stamped_key now fresh key in
    if faults insert_key
    then (rows, err database)
    else if any_of (clashes_key k) rows
    then (rows, err api_key_hash_already_exists)
    else (record k { revoked = false; last_used_at = none } ∷ rows, ok k)

unfoldable pub find_key : (ApiKey → Bool) → List ApiKey → Option ApiKey
find_key p [] = none
find_key p (k ∷ ks) = if p k then some k else find_key p ks

abbrev pub has_hash : String → ApiKey → Bool
has_hash hash k = k.key_hash == hash

abbrev pub has_id : String → ApiKey → Bool
has_id id k = k.id == id

-- A key that is not there is no error: the answer is nil.
unfoldable pub get_api_key_by_hash : KeyFaults → String → List ApiKey → Result (Option ApiKey)
get_api_key_by_hash faults hash rows =
    if faults select_key then err database else ok (find_key (has_hash hash) rows)

unfoldable pub get_api_key_by_id : KeyFaults → String → List ApiKey → Result (Option ApiKey)
get_api_key_by_id faults id rows =
    if faults select_key then err database else ok (find_key (has_id id) rows)

-- ORDER BY created_at DESC.
unfoldable pub insert_key_by_age : ApiKey → List ApiKey → List ApiKey
insert_key_by_age k [] = k ∷ []
insert_key_by_age k (x ∷ xs) =
    let rest = insert_key_by_age k xs in
    if ltb k.created_at x.created_at then x ∷ rest else k ∷ x ∷ xs

unfoldable pub newest_keys_first : List ApiKey → List ApiKey
newest_keys_first [] = []
newest_keys_first (k ∷ ks) = insert_key_by_age k (newest_keys_first ks)

unfoldable pub list_api_keys : KeyFaults → String → List ApiKey → Result (List ApiKey)
list_api_keys faults user_id rows =
    if faults list_keys
    then err database
    else ok (newest_keys_first (keep (λ k. k.user_id == user_id) rows))

unfoldable pub list_all_api_keys : KeyFaults → List ApiKey → Result (List ApiKey)
list_all_api_keys faults rows =
    if faults list_keys then err database else ok (newest_keys_first rows)

unfoldable pub map_keys : String → (ApiKey → ApiKey) → List ApiKey → List ApiKey
map_keys id f [] = []
map_keys id f (k ∷ ks) = (if k.id == id then f k else k) ∷ map_keys id f ks

abbrev pub revoke : ApiKey → ApiKey
revoke k = record k { revoked = true }

unfoldable pub revoke_api_key : KeyFaults → String → List ApiKey → List ApiKey × Result (Unit {0})
revoke_api_key faults id rows =
    if faults revoke_key
    then (rows, err database)
    else if any_of (has_id id) rows
    then (map_keys id revoke rows, ok tt)
    else (rows, err api_key_not_found)

abbrev pub use_at : Time → ApiKey → ApiKey
use_at now k = record k { last_used_at = some now }

unfoldable pub update_api_key_last_used :
    KeyFaults → Time → String → List ApiKey → List ApiKey × Result (Unit {0})
update_api_key_last_used faults now id rows =
    if faults touch_key then (rows, err database) else (map_keys id (use_at now) rows, ok tt)

unfoldable pub delete_api_key : KeyFaults → String → List ApiKey → List ApiKey × Result (Unit {0})
delete_api_key faults id rows =
    if faults delete_key
    then (rows, err database)
    else if any_of (has_id id) rows
    then (keep (λ k. not (has_id id k)) rows, ok tt)
    else (rows, err api_key_not_found)

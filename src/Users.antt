-- ===== src/Users.antt =====
-- backend/storage/user.go: the tables `users` and `user_oauth`, with the constraints of
-- backend/migrations/001_init_up.sql: a user's identifier and email are unique, the role is one of
-- two, and so is the pair of provider and foreign identifier. Deleting a user deletes its links, and by
-- ON DELETE CASCADE its API keys; its sites and files stand in other models.
-- `UserFaults` says which statements the database refuses; identifiers and instants are arguments.
pub mod Links
pub mod Constraints
pub mod Outcomes
pub mod Lookups
pub mod Deletion
pub mod FirstLogin
use human_guard.Base.{
  map, lower_text, Char, String, Bool, not, ◌&&◌, ◌||◌, Option, none, some, List, [], ◌∷◌, ◌==◌,
  ltb, if◌then◌else◌, keep, any_of, ℕ, zero, suc, ◌+◌, ◌-◌, ◌*◌, ◌≤◌, ◌<◌, ◌≡◌, refl, sym, ap, ◌∙◌,
  ◌≢◌, ◌↔◌, ◌⊎◌, inl, inr, true, false, ◌++◌, arith, eq_iff, eq_refl, leb, eqb, Bool-cases,
  Option-cases, length, count_if, All, Dict, lookup, insert, delete, adjust, ℤ, pos, negsuc,
  positive_part, ◌/◌, ◌%◌, upper_text, byte_len, codes, has_prefix, Pairwise, All-weaken, All-keep,
}
use human_guard.Errors.{Result, ok, err, user_not_found, user_already_exists, database}
use human_guard.Clock.{Time}
use human_guard.ApiKeys.{ApiKey}

pub record User : Type 0 where
  pub id : String
  pub email : String
  pub name : String
  pub avatar_url : Option String
  pub role : String
  pub totp_secret : Option String
  pub password_hash : String
  pub is_verified : Bool
  pub created_at : Time
  pub updated_at : Time
  pub last_login : Option Time

pub record UserOauth : Type 0 where
  pub id : String
  pub user_id : String
  pub provider : String
  pub oauth_id : String
  pub created_at : Time

pub record UserDb : Type 0 where
  pub users : List User
  pub links : List UserOauth
  pub keys : List ApiKey

pub data UserQuery : Type 0 where
  insert_user list_users_query select_user select_email update_user_query update_hash : UserQuery
  update_picture delete_user_query touch_user exists_email insert_link select_link : UserQuery
  list_links delete_link : UserQuery

abbrev pub UserFaults : Type 0
UserFaults = UserQuery → Bool

unfoldable pub find_user : String → List User → Option User
find_user id [] = none
find_user id (u ∷ us) = if u.id == id then some u else find_user id us

unfoldable pub find_email : String → List User → Option User
find_email email [] = none
find_email email (u ∷ us) = if u.email == email then some u else find_email email us

abbrev pub has_user_id : String → User → Bool
has_user_id id u = u.id == id

abbrev pub rewritten : String → (User → User) → User → User
rewritten id f u = if u.id == id then f u else u

abbrev pub map_users : String → (User → User) → List User → List User
map_users id f = map (rewritten id f)

-- `CreateUser`: the row that is written, and the struct as the caller's is left.
abbrev pub prepared_user : Time → String → User → User
prepared_user now fresh u = record u {
  id = if u.id == "" then fresh else u.id;
  role = if u.role == "" then "user" else u.role;
  created_at = now;
  updated_at = now;
}

-- CHECK (role IN ('user', 'admin')).
abbrev pub is_role : String → Bool
is_role role = role == "user" || role == "admin"

abbrev pub clashes_user : User → User → Bool
clashes_user u row = row.id == u.id || row.email == u.email

unfoldable pub create_user : UserFaults → Time → String → User → UserDb → UserDb × Result User
create_user faults now fresh user db =
    let u = prepared_user now fresh user in
    if faults insert_user || not (is_role u.role)
    then (db, err database)
    else if any_of (clashes_user u) db.users
    then (db, err user_already_exists)
    else (record db { users = u ∷ db.users }, ok u)

-- ORDER BY created_at DESC.
unfoldable pub insert_user_by_age : User → List User → List User
insert_user_by_age u [] = u ∷ []
insert_user_by_age u (x ∷ xs) =
    let rest = insert_user_by_age u xs in
    if ltb u.created_at x.created_at then x ∷ rest else u ∷ x ∷ xs

unfoldable pub newest_users_first : List User → List User
newest_users_first [] = []
newest_users_first (u ∷ us) = insert_user_by_age u (newest_users_first us)

unfoldable pub list_users : UserFaults → UserDb → Result (List User)
list_users faults db =
    if faults list_users_query then err database else ok (newest_users_first db.users)

abbrev pub found_user : Option User → Result User
found_user none = err user_not_found
found_user (some u) = ok u

unfoldable pub get_user_by_id : UserFaults → String → UserDb → Result User
get_user_by_id faults id db =
    if faults select_user then err database else found_user (find_user id db.users)

-- The argument is lowered, the column is compared as it was written.
unfoldable pub get_user_by_email : (Char → Char) → UserFaults → String → UserDb → Result User
get_user_by_email table faults email db =
    if faults select_email
    then err database
    else found_user (find_email (lower_text table email) db.users)

unfoldable pub check_email_exists : (Char → Char) → UserFaults → String → UserDb → Result Bool
check_email_exists table faults email db =
    if faults exists_email
    then err database
    else ok (any_of (λ u. u.email == lower_text table email) db.users)

-- An UPDATE of the row of a user, which reports a user that is not there.
abbrev pub update_row :
    UserQuery → UserFaults → String → (User → User) → UserDb → UserDb × Result (Unit {0})
update_row q faults id f db =
    if faults q
    then (db, err database)
    else if any_of (has_user_id id) db.users
    then (record db { users = map_users id f db.users }, ok tt)
    else (db, err user_not_found)

-- What `UpdateUser` writes of the struct; the other columns keep what they hold.
abbrev pub written : Time → User → User → User
written now u row = record row {
  name = u.name;
  role = u.role;
  avatar_url = u.avatar_url;
  updated_at = now;
  last_login = u.last_login;
}

-- The role is checked only where a row is written.
unfoldable pub update_user : UserFaults → Time → User → UserDb → UserDb × Result (Unit {0})
update_user faults now u db =
    if any_of (has_user_id u.id) db.users && not (is_role u.role)
    then (db, err database)
    else update_row update_user_query faults u.id (written now u) db

abbrev pub with_hash : Time → String → User → User
with_hash now hash row = record row { password_hash = hash; updated_at = now }

unfoldable pub update_password :
    UserFaults → Time → String → String → UserDb → UserDb × Result (Unit {0})
update_password faults now id hash = update_row update_hash faults id (with_hash now hash)

abbrev pub with_avatar : Time → String → User → User
with_avatar now url row = record row { avatar_url = some url; updated_at = now }

unfoldable pub update_avatar :
    UserFaults → Time → String → String → UserDb → UserDb × Result (Unit {0})
update_avatar faults now id url = update_row update_picture faults id (with_avatar now url)

abbrev pub logged_in : Time → User → User
logged_in now row = record row { last_login = some now; updated_at = now }

-- A user that is gone is no error here.
unfoldable pub update_last_login : UserFaults → Time → String → UserDb → UserDb × Result (Unit {0})
update_last_login faults now id db =
    if faults touch_user
    then (db, err database)
    else (record db { users = map_users id (logged_in now) db.users }, ok tt)

-- One transaction: it is rolled back on an error and for a user that is not there.
unfoldable pub delete_user : UserFaults → String → UserDb → UserDb × Result (Unit {0})
delete_user faults id db =
    if faults delete_user_query
    then (db, err database)
    else if any_of (has_user_id id) db.users
    then (
      record {
        users = keep (λ u. not (has_user_id id u)) db.users;
        links = keep (λ l. not (l.user_id == id)) db.links;
        keys = keep (λ k. not (k.user_id == id)) db.keys;
      },
      ok tt,
    )
    else (db, err user_not_found)

-- ===== src/Users/Links.antt =====
-- backend/storage/user.go, the accounts at identity providers that users sign in with.
use human_guard.Base.{
  Char, String, Bool, true, not, ◌&&◌, Option, none, some, List, [], ◌∷◌, ◌==◌, ltb, if◌then◌else◌,
  keep, any_of,
}
use human_guard.Errors.{Result, ok, err, database}
use human_guard.Clock.{Time}
use human_guard.Users.{
  User, UserOauth, UserDb, UserFaults, insert_link, select_link, list_links, delete_link, find_user,
  has_user_id, found_user, get_user_by_email, create_user,
}

abbrev pub is_link : String → String → UserOauth → Bool
is_link provider oauth_id l = l.provider == provider && l.oauth_id == oauth_id

-- ON CONFLICT (provider, oauth_id) DO NOTHING; the identifier is a primary key, and the user must
-- exist (a foreign key).
unfoldable pub add_user_oauth :
    UserFaults → Time → String → String → String → String → UserDb → UserDb × Result (Unit {0})
add_user_oauth faults now fresh user_id provider oauth_id db =
    if faults insert_link
    then (db, err database)
    else if any_of (is_link provider oauth_id) db.links
    then (db, ok tt)
    else if not (any_of (λ l. l.id == fresh) db.links) && any_of (has_user_id user_id) db.users
    then (
      record db {
        links =
            record {
              id = fresh;
              user_id = user_id;
              provider = provider;
              oauth_id = oauth_id;
              created_at = now;
            }
            ∷ db.links;
      },
      ok tt,
    )
    else (db, err database)

unfoldable pub find_link : String → String → List UserOauth → Option UserOauth
find_link provider oauth_id [] = none
find_link provider oauth_id (l ∷ ls) =
    if is_link provider oauth_id l then some l else find_link provider oauth_id ls

abbrev pub linked_user : Option UserOauth → List User → Option User
linked_user none us = none
linked_user (some l) us = find_user l.user_id us

unfoldable pub get_user_by_oauth : UserFaults → String → String → UserDb → Result User
get_user_by_oauth faults provider oauth_id db =
    if faults select_link
    then err database
    else found_user (linked_user (find_link provider oauth_id db.links) db.users)

-- ORDER BY created_at: the oldest first.
unfoldable pub insert_link_by_age : UserOauth → List UserOauth → List UserOauth
insert_link_by_age l [] = l ∷ []
insert_link_by_age l (x ∷ xs) =
    let rest = insert_link_by_age l xs in
    if ltb x.created_at l.created_at then x ∷ rest else l ∷ x ∷ xs

unfoldable pub oldest_links_first : List UserOauth → List UserOauth
oldest_links_first [] = []
oldest_links_first (l ∷ ls) = insert_link_by_age l (oldest_links_first ls)

unfoldable pub get_user_oauths : UserFaults → String → UserDb → Result (List UserOauth)
get_user_oauths faults user_id db =
    if faults list_links
    then err database
    else ok (oldest_links_first (keep (λ l. l.user_id == user_id) db.links))

unfoldable pub remove_user_oauth :
    UserFaults → String → String → UserDb → UserDb × Result (Unit {0})
remove_user_oauth faults user_id provider db = if faults delete_link then (db, err database) else (
  record db { links = keep (λ l. not (l.user_id == user_id && l.provider == provider)) db.links },
  ok tt,
)

-- The struct of a user who signs in for the first time.
abbrev pub new_oauth_user : String → String → User
new_oauth_user email name = record {
  id = "";
  email = email;
  name = name;
  avatar_url = none;
  role = "user";
  totp_secret = none;
  password_hash = "";
  is_verified = true;
  created_at = 0;
  updated_at = 0;
  last_login = none;
}

-- The account that a provider vouches for.
pub record OauthUserInfo : Type 0 where
  pub id : String
  pub email : String
  pub name : String

-- Identifiers that the call draws, for a user and for a link.
pub record Drawn : Type 0 where
  pub user_id : String
  pub link_id : String

abbrev pub add_new :
    UserFaults → Time → Drawn → String → OauthUserInfo → UserDb × Result User → UserDb × Result User
add_new faults now drawn provider info (db, err e) = (db, err e)
add_new faults now drawn provider info (db, ok u) =
    ((add_user_oauth faults now drawn.link_id u.id provider info.id db).0, ok u)

abbrev pub match_email :
    UserFaults → Time → Drawn → String → OauthUserInfo → Result User → UserDb → UserDb × Result User
match_email faults now drawn provider info (ok u) db =
    ((add_user_oauth faults now drawn.link_id u.id provider info.id db).0, ok u)
match_email faults now drawn provider info (err e) db =
    add_new faults now drawn provider info
      (create_user faults now drawn.user_id (new_oauth_user info.email info.name) db)

abbrev pub match_link :
    (Char → Char)
    → UserFaults
    → Time
    → Drawn
    → String
    → OauthUserInfo
    → Result User
    → UserDb
    → UserDb × Result User
match_link table faults now drawn provider info (ok u) db = (db, ok u)
match_link table faults now drawn provider info (err e) db =
    match_email faults now drawn provider info (get_user_by_email table faults info.email db) db

-- The user that is linked; or else the one with the email, who is linked; or else a new one. A link
-- that cannot be stored is only logged, and every error of a lookup counts as not found.
unfoldable pub get_or_create_user_by_oauth :
    (Char → Char)
    → UserFaults
    → Time
    → Drawn
    → String
    → OauthUserInfo
    → UserDb
    → UserDb × Result User
get_or_create_user_by_oauth table faults now drawn provider info db =
    match_link table faults now drawn provider info (get_user_by_oauth faults provider info.id db)
      db

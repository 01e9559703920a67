-- ===== src/Users/Constraints.antt =====
-- The constraints of the tables of users (backend/migrations/001_init_up.sql).
use human_guard.Base.{◌≡◌, ◌≢◌, true, false, List, any_of, All, Pairwise}
use human_guard.Users.{User, UserOauth, UserDb, has_user_id, is_role}
use human_guard.Users.Links.{is_link}

abbrev pub Differs : User → User → Type 0
Differs u v = (v.id ≢ u.id) × (v.email ≢ u.email)

-- Two links to different accounts.
abbrev pub IsOther : UserOauth → UserOauth → Type 0
IsOther l m = is_link l.provider l.oauth_id m ≡ false

abbrev pub HasRole : User → Type 0
HasRole u = is_role u.role ≡ true

-- The user of a link is in the table.
abbrev pub IsOwned : List User → UserOauth → Type 0
IsOwned us l = any_of (has_user_id l.user_id) us ≡ true

-- Identifiers and emails are unique, roles are known, links lead to different accounts and belong to
-- users that exist.
pub record IsSound (db : UserDb) : Type 0 where
  pub distinct : Pairwise Differs db.users
  pub roles : All HasRole db.users
  pub links_distinct : Pairwise IsOther db.links
  pub owned : All (IsOwned db.users) db.links

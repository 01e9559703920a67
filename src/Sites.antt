-- ===== src/Sites.antt =====
-- backend/storage/site.go, settings.go and blacklist.go: the tables `sites` and `blacklist`.
-- The status of a site is one of three (backend/migrations/001_init_up.sql). A statement that the
-- database refuses is an argument: `faults q` says that the statements of the
-- kind `q` fail in the run. Identifiers that the program draws (`uuid.New`) are arguments too.
pub mod Blacklist
pub mod Listing
pub mod SiteSettings
pub mod Reads
mod Tests
use human_guard.Base.{
  ℕ, ◌+◌, String, Bool, true, false, not, ◌&&◌, ◌||◌, Option, none, some, List, [], ◌∷◌, ◌==◌,
  any_of, keep, map, ltb, if◌then◌else◌, zero, suc, ◌-◌, ◌*◌, ◌≤◌, ◌<◌, ◌≡◌, refl, sym, ap, ◌∙◌,
  ◌≢◌, ◌↔◌, ◌⊎◌, inl, inr, ◌++◌, arith, eq_iff, eq_refl, leb, eqb, Bool-cases, Option-cases, length,
  count_if, All, Dict, lookup, insert, delete, adjust,
}
use human_guard.Errors.{
  Result, ok, err, site_not_found, site_already_exists, blacklist_entry_not_found, database,
}
use human_guard.Value.{FloatOps}
use human_guard.Clock.{Time, is_zero}
use human_guard.Settings.{
  ModuleSettings, Column, absent, empty_object, marshal, unmarshal, get_default_settings,
}

pub data Query : Type 0 where
  insert_site select_site update_site_query delete_site_query update_status select_settings : Query
  update_settings upsert_blacklist delete_blacklist select_blacklist list_blacklist : Query

abbrev pub Faults : Type 0
Faults = Query → Bool

pub record Site : Type 0 where
  pub id : String
  pub user_id : String
  pub name : String
  pub domain : String
  pub origin_server : String
  pub status : String
  pub settings : Option ModuleSettings
  pub created_at : Time
  pub updated_at : Time

-- A row of the table: a site with its settings column.
pub record SiteRow : Type 0 where
  pub site : Site
  pub column : Column

pub record BlacklistEntry : Type 0 where
  pub id : String
  pub site_id : String
  pub ip : String
  pub reason : String
  pub created_at : Time
  pub expires_at : Option Time

pub record Db : Type 0 where
  pub sites : List SiteRow
  pub blacklist : List BlacklistEntry

-- The row of a site, and the site that it reads as: a column that does not parse leaves no settings.
unfoldable pub find_row : String → List SiteRow → Option SiteRow
find_row id [] = none
find_row id (r ∷ rs) = if r.site.id == id then some r else find_row id rs

abbrev pub read_row : FloatOps → SiteRow → Site
read_row f r = record (r.site) { settings = unmarshal f r.column }

unfoldable pub get_site : FloatOps → Faults → String → Db → Result Site
unfolding find_row
get_site f faults id db =
    if faults select_site
    then err database
    else elim (find_row id db.sites) [ none ↦ err site_not_found | some r ↦ ok (read_row f r) ]

abbrev pub or_default : FloatOps → Option ModuleSettings → ModuleSettings
or_default f none = get_default_settings f
or_default f (some s) = s

-- `GetSiteSettings`: a refused query, a missing row, an empty column and a bad document all read as
-- the defaults.
unfoldable pub get_site_settings : FloatOps → Faults → String → Db → ModuleSettings
unfolding find_row
get_site_settings f faults id db =
    if faults select_settings then get_default_settings f else elim (find_row id db.sites) [
      | none ↦ get_default_settings f
      | some r ↦ or_default f (unmarshal f r.column)
    ]

abbrev pub map_rows : String → (SiteRow → SiteRow) → List SiteRow → List SiteRow
map_rows id g [] = []
map_rows id g (r ∷ rs) = if r.site.id == id then g r ∷ map_rows id g rs else r ∷ map_rows id g rs

abbrev pub with_settings : Time → ModuleSettings → SiteRow → SiteRow
with_settings now s r = record { site = record (r.site) { updated_at = now }; column = marshal s }

unfoldable pub update_site_settings :
    Faults → Time → String → ModuleSettings → Db → Db × Result (Unit {0})
update_site_settings faults now id s db =
    if faults update_settings
    then (db, err database)
    else (record db { sites = map_rows id (with_settings now s) db.sites }, ok tt)

-- `CreateSite`: the row that is inserted, and the site as the caller's struct is left.
abbrev pub prepared : Time → String → Site → Site
prepared now fresh s = record s {
  id = if s.id == "" then fresh else s.id;
  created_at = now;
  updated_at = now;
  status = if s.status == "" then "verifying" else s.status;
}

abbrev pub column_of : Option ModuleSettings → Column
column_of none = empty_object
column_of (some s) = marshal s

-- CHECK (status IN ('verifying', 'active', 'suspended')).
abbrev pub is_status : String → Bool
is_status status = status == "verifying" || status == "active" || status == "suspended"

-- The table's primary key and its unique domain.
abbrev pub clashes : Site → SiteRow → Bool
clashes s r = r.site.id == s.id || r.site.domain == s.domain

unfoldable pub create_site : Faults → Time → String → Site → Db → Db × Result Site
create_site faults now fresh site db =
    let s = prepared now fresh site in
    if faults insert_site || not (is_status s.status)
    then (db, err database)
    else if any_of (clashes s) db.sites
    then (db, err site_already_exists)
    else (record db { sites = record { site = s; column = column_of s.settings } ∷ db.sites }, ok s)

abbrev pub is_row : String → SiteRow → Bool
is_row id r = r.site.id == id

-- An UPDATE by the primary key that writes a status, which reports a site that is not there. The
-- status is checked only where a row is written.
abbrev pub update_row :
    Query → Faults → String → String → (SiteRow → SiteRow) → Db → Db × Result (Unit {0})
update_row q faults id status g db =
    if faults q || (any_of (is_row id) db.sites && not (is_status status))
    then (db, err database)
    else if any_of (is_row id) db.sites
    then (record db { sites = map_rows id g db.sites }, ok tt)
    else (db, err site_not_found)

-- COALESCE keeps the column when the site carries no settings.
abbrev pub coalesced : Option ModuleSettings → Column → Column
coalesced none c = c
coalesced (some s) c = marshal s

unfoldable pub update_site : Faults → Time → Site → Db → Db × Result (Unit {0})
update_site faults now s = update_row update_site_query faults s.id s.status (λ r. record {
  site = record (r.site) {
    name = s.name;
    origin_server = s.origin_server;
    status = s.status;
    updated_at = now;
  };
  column = coalesced s.settings r.column;
})

unfoldable pub update_site_status : Faults → Time → String → String → Db → Db × Result (Unit {0})
update_site_status faults now id status =
    update_row update_status faults id status
      (λ r. record r { site = record (r.site) { status = status; updated_at = now } })

unfoldable pub activate_site : Faults → Time → String → Db → Db × Result (Unit {0})
unfolding update_site_status
activate_site faults now id = update_site_status faults now id "active"

unfoldable pub suspend_site : Faults → Time → String → Db → Db × Result (Unit {0})
unfolding update_site_status
suspend_site faults now id = update_site_status faults now id "suspended"

-- `DeleteSite`: one transaction; the rows of the blacklist go with the site (ON DELETE CASCADE).
unfoldable pub delete_site : Faults → String → Db → Db × Result (Unit {0})
delete_site faults id db =
    if faults delete_site_query
    then (db, err database)
    else if any_of (is_row id) db.sites
    then (
      record {
        sites = keep (λ r. not (is_row id r)) db.sites;
        blacklist = keep (λ e. not (e.site_id == id)) db.blacklist;
      },
      ok tt,
    )
    else (db, err site_not_found)

-- backend/storage/blacklist.go.
abbrev pub is_pair : String → String → BlacklistEntry → Bool
is_pair site ip e = e.site_id == site && e.ip == ip

abbrev pub in_force : Time → BlacklistEntry → Bool
in_force now e = elim e.expires_at [ none ↦ true | some t ↦ ltb now t ]

-- ON CONFLICT (site_id, ip): only the reason and the expiry of the old row change.
unfoldable pub upsert : BlacklistEntry → List BlacklistEntry → List BlacklistEntry
upsert e [] = e ∷ []
upsert e (x ∷ xs) =
    if is_pair e.site_id e.ip x
    then record x { reason = e.reason; expires_at = e.expires_at } ∷ xs
    else x ∷ upsert e xs

-- The entry as it is written: an empty identifier is drawn, and a zero creation time is now.
abbrev pub stamped : Time → String → BlacklistEntry → BlacklistEntry
stamped now fresh e = record e {
  id = if e.id == "" then fresh else e.id;
  created_at = if is_zero e.created_at then now else e.created_at;
}

unfoldable pub add_to_blacklist :
    Faults → Time → String → BlacklistEntry → Db → Db × Result (Unit {0})
add_to_blacklist faults now fresh entry db =
    if faults upsert_blacklist
    then (db, err database)
    else (record db { blacklist = upsert (stamped now fresh entry) db.blacklist }, ok tt)

unfoldable pub remove_from_blacklist : Faults → String → String → Db → Db × Result (Unit {0})
remove_from_blacklist faults site ip db =
    if faults delete_blacklist
    then (db, err database)
    else if any_of (is_pair site ip) db.blacklist
    then (record db { blacklist = keep (λ e. not (is_pair site ip e)) db.blacklist }, ok tt)
    else (db, err blacklist_entry_not_found)

abbrev pub blocks : Time → String → String → BlacklistEntry → Bool
blocks now site ip e = is_pair site ip e && in_force now e

unfoldable pub is_blacklisted : Faults → Time → String → String → Db → Result Bool
is_blacklisted faults now site ip db =
    if faults select_blacklist then err database else ok (any_of (blocks now site ip) db.blacklist)

-- ORDER BY created_at DESC: the newest entry first.
unfoldable pub insert_by_age : BlacklistEntry → List BlacklistEntry → List BlacklistEntry
insert_by_age e [] = e ∷ []
insert_by_age e (x ∷ xs) =
    if ltb e.created_at x.created_at then x ∷ insert_by_age e xs else e ∷ x ∷ xs

unfoldable pub newest_first : List BlacklistEntry → List BlacklistEntry
unfolding insert_by_age
newest_first [] = []
newest_first (e ∷ es) = insert_by_age e (newest_first es)

unfoldable pub list_entries : Faults → Time → String → Db → Result (List BlacklistEntry)
unfolding newest_first
list_entries faults now site db =
    if faults list_blacklist
    then err database
    else ok (newest_first (keep (λ e. e.site_id == site && in_force now e) db.blacklist))

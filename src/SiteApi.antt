-- ===== src/SiteApi.antt =====
-- backend/handlers/site.go: the handlers of sites, their settings and their blacklists, over the
-- tables of Sites. `net.ParseIP` with `To4` is a parameter.
pub mod Bans
pub mod Lists
pub mod Guards
pub mod Edits
mod Tests
use human_guard.Base.{
  ℤ, pos, negsuc, positive_part, ◌/◌, ◌%◌, Char, lower_text, upper_text, byte_len, codes,
  has_prefix, Pairwise, All-weaken, All-keep, ℕ, zero, suc, ◌+◌, ◌-◌, ◌*◌, ◌≤◌, ◌<◌, String, ◌≡◌,
  refl, sym, ap, ◌∙◌, ◌≢◌, ◌↔◌, ◌⊎◌, inl, inr, Bool, true, false, not, ◌&&◌, ◌||◌, Option, none,
  some, List, [], ◌∷◌, ◌++◌, map, arith, ◌==◌, eq_iff, eq_refl, ltb, leb, eqb, if◌then◌else◌,
  Bool-cases, Option-cases, length, keep, count_if, any_of, All, Dict, lookup, insert, delete,
  adjust,
}
use human_guard.Errors.{Error, Result, ok, err, site_not_found, site_already_exists}
use human_guard.Clock.{Time}
use human_guard.Settings.{ModuleSettings}
use human_guard.Http.{Body, parsed}
use human_guard.Sites.{
  Site, Db, create_site, get_site, update_site, delete_site, activate_site, suspend_site,
  get_site_settings, update_site_settings,
}
use human_guard.Sites.Reads.{get_sites_by_user_id}
use human_guard.World.{Env}
use human_guard.Auth.{Identity}
use human_guard.Reply.{Reply, http_error, failed, json, no_content}

pub record CreateSiteBody : Type 0 where
  pub user_id : String
  pub name : String
  pub domain : String
  pub origin_server : String

-- The owner is the one that the body names.
abbrev pub new_site : CreateSiteBody → Site
new_site b = record {
  id = "";
  user_id = b.user_id;
  name = b.name;
  domain = b.domain;
  origin_server = b.origin_server;
  status = "verifying";
  settings = none;
  created_at = 0;
  updated_at = 0;
}

abbrev pub site_error : Error → Reply Site
site_error site_already_exists = http_error 409 "Site already exists"
site_error e = failed 500 e

abbrev pub created_reply : Db × Result Site → Db × Reply Site
created_reply (db, err e) = (db, site_error e)
created_reply (db, ok site) = (db, json 201 site)

unfoldable pub serve_create_site : Env → Body CreateSiteBody → Db → Db × Reply Site
serve_create_site env body db = elim body [
  | parsed b ↦
      if b.user_id == "" || b.name == "" || b.domain == "" || b.origin_server == ""
      then (db, http_error 400 "user_id, name, domain, origin_server are required")
      else created_reply (create_site env.faults env.now env.fresh (new_site b) db)
  | _ ↦ (db, http_error 400 "Invalid request body")
]

unfoldable pub list_sites : Env → Identity → Db → Reply (List Site)
list_sites env who db =
    if who.user_id == ""
    then http_error 401 "Unauthorized"
    else elim (get_sites_by_user_id env.floats env.faults who.user_id db) [
      | err e ↦ failed 500 e
      | ok sites ↦ json 200 sites
    ]

abbrev pub missing_site {ℓ} : {A : Type ℓ} → Error → Reply A
missing_site site_not_found = http_error 404 "Site not found"
missing_site e = failed 500 e

unfoldable pub serve_get_site : Env → String → Db → Reply Site
serve_get_site env id db = elim (get_site env.floats env.faults id db) [
  | err e ↦ missing_site e
  | ok site ↦ json 200 site
]

pub record UpdateSiteBody : Type 0 where
  pub name : String
  pub origin_server : String
  pub status : String

abbrev pub or_old : String → String → String
or_old new old = if new == "" then old else new

abbrev pub edited_site : UpdateSiteBody → Site → Site
edited_site b s = record s {
  name = or_old b.name s.name;
  origin_server = or_old b.origin_server s.origin_server;
  status = or_old b.status s.status;
}

abbrev pub updated_reply : Time → Site → Db × Result (Unit {0}) → Db × Reply Site
updated_reply now s (db, err e) = (db, failed 500 e)
updated_reply now s (db, ok _) = (db, json 200 (record s { updated_at = now }))

abbrev pub edit_site : Env → UpdateSiteBody → Result Site → Db → Db × Reply Site
edit_site env b (err e) db = (db, http_error 404 "Site not found")
edit_site env b (ok site) db =
    updated_reply env.now (edited_site b site)
      (update_site env.faults env.now (edited_site b site) db)

unfoldable pub serve_update_site : Env → String → Body UpdateSiteBody → Db → Db × Reply Site
serve_update_site env id body db = elim body [
  | parsed b ↦ edit_site env b (get_site env.floats env.faults id db) db
  | _ ↦ (db, http_error 400 "Invalid request body")
]

abbrev pub deleted_reply : Db × Result (Unit {0}) → Db × Reply (Unit {0})
deleted_reply (db, err e) = (db, missing_site e)
deleted_reply (db, ok _) = (db, no_content)

unfoldable pub serve_delete_site : Env → String → Db → Db × Reply (Unit {0})
serve_delete_site env id db = deleted_reply (delete_site env.faults id db)

abbrev pub read_again : Env → String → Db → Reply Site
read_again env id db = elim (get_site env.floats env.faults id db) [
  | err e ↦ failed 500 e
  | ok site ↦ json 200 site
]

abbrev pub status_reply : Env → String → Db × Result (Unit {0}) → Db × Reply Site
status_reply env id (db, err e) = (db, failed 500 e)
status_reply env id (db, ok _) = (db, read_again env id db)

unfoldable pub serve_activate_site : Env → String → Db → Db × Reply Site
serve_activate_site env id db = status_reply env id (activate_site env.faults env.now id db)

unfoldable pub serve_suspend_site : Env → String → Db → Db × Reply Site
serve_suspend_site env id db = status_reply env id (suspend_site env.faults env.now id db)

-- `GetSiteSettings` of the storage never gives an error.
unfoldable pub serve_get_site_settings : Env → String → Db → Reply ModuleSettings
serve_get_site_settings env id db = json 200 (get_site_settings env.floats env.faults id db)

abbrev pub settings_reply : ModuleSettings → Db × Result (Unit {0}) → Db × Reply ModuleSettings
settings_reply s (db, err e) = (db, failed 500 e)
settings_reply s (db, ok _) = (db, json 200 s)

unfoldable pub serve_update_site_settings :
    Env → String → Body ModuleSettings → Db → Db × Reply ModuleSettings
serve_update_site_settings env id body db = elim body [
  | parsed s ↦ settings_reply s (update_site_settings env.faults env.now id s db)
  | _ ↦ (db, http_error 400 "Invalid request body")
]

-- ===== src/SiteApi/Tests.antt =====
-- The handlers of sites on concrete requests.
use human_guard.Errors.{ok}
use human_guard.Base.{pos, ◌+◌, String, ◌≡◌, refl, ◌⊎◌, Bool, true, some, lookup}
use human_guard.Clock.{minute}
use human_guard.Http.{get_real_ip, parsed, empty}
use human_guard.Sites.{
  update_site, Site, BlacklistEntry, get_site, find_row, add_to_blacklist, stamped,
}
use human_guard.World.{World}
use human_guard.Auth.{Identity}
use human_guard.Visitor.{check_request, blocked_ip}
use human_guard.SiteApi.{UpdateSiteBody, serve_get_site, serve_update_site}
use human_guard.SiteApi.Lists.{
  BanBody, ban, ban_entry, serve_add_to_blacklist, serve_remove_from_blacklist,
}
use human_guard.SiteApi.Guards.{Manages, blacklist_guarded}
use human_guard.SiteApi.Bans.{check_request-serve_add_to_blacklist}
use human_guard.SiteApi.Edits.{serve_get_site-serve_update_site}
use human_guard.Reply.{json}
use human_guard.Samples.{env, shop, db, world, newcomer, noon}

abbrev owner : Identity
owner = record { user_id = "owner"; role = "user"; session_id = "s1"; api_key_id = "" }

abbrev any_ip : String → Bool
any_ip ip = true

abbrev for_an_hour : BanBody
for_an_hour = record {
  ip = "198.51.100.7";
  reason = "scraping";
  expires_in_minutes = some (pos 60);
}

blacklist_guarded_example :
    Manages env owner "shop" db
    ⊎ (((serve_add_to_blacklist env any_ip owner "shop" (parsed for_an_hour) db).0 ≡ db)
        × ((serve_remove_from_blacklist env owner "shop" "203.0.113.9" db).0 ≡ db))
blacklist_guarded_example =
    blacklist_guarded env any_ip owner "shop" "203.0.113.9" (parsed for_an_hour) db

abbrev stored_ban : BlacklistEntry
stored_ban = stamped noon "0190-new-session" (ban_entry noon "shop" for_an_hour)

check_request-serve_add_to_blacklist_example :
    let w' : World = record world {
      db = (serve_add_to_blacklist env any_ip owner "shop" (parsed for_an_hour) db).0;
    } in
    check_request (record env { now = noon + minute }) newcomer empty w' ≡ (w', blocked_ip)
unfolding serve_add_to_blacklist ban get_site find_row add_to_blacklist lookup get_real_ip
check_request-serve_add_to_blacklist_example =
    check_request-serve_add_to_blacklist env any_ip owner for_an_hour world stored_ban shop
      (noon + minute) newcomer empty refl (tt, tt) refl refl refl refl refl refl refl

abbrev renaming : UpdateSiteBody
renaming = record { name = "Store"; origin_server = ""; status = "" }

abbrev renamed : Site
renamed = record shop { name = "Store"; updated_at = noon }

serve_get_site-serve_update_site_example :
    (serve_get_site env "shop" (serve_update_site env "shop" (parsed renaming) db).0
      ≡ json 200 renamed)
    × ((old : Site) × (get_site env.floats env.faults "shop" db ≡ ok old)
        × (renamed ≡ record old {
          name = "Store";
          origin_server = old.origin_server;
          status = old.status;
          updated_at = noon;
        }))
unfolding serve_update_site get_site find_row update_site
serve_get_site-serve_update_site_example =
    serve_get_site-serve_update_site env "shop" renaming db renamed refl

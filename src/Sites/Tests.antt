-- ===== src/Sites/Tests.antt =====
-- The blacklist and the settings on concrete tables.
use human_guard.Base.{◌+◌, ◌*◌, ◌≡◌, refl, true, none}
use human_guard.Errors.{ok}
use human_guard.Clock.{hour}
use human_guard.Sites.{Site, BlacklistEntry, prepared, add_to_blacklist, is_blacklisted}
use human_guard.Sites.Blacklist.{is_blacklisted-add_to_blacklist}
use human_guard.Samples.{answering, ban, db, noon, shop}

-- The ban again, for ever.
abbrev life : BlacklistEntry
life = record ban { expires_at = none }

is_blacklisted-add_to_blacklist_example :
    is_blacklisted answering
      (noon + 9 * hour)
      "shop"
      "203.0.113.9"
      (add_to_blacklist answering noon "b2" life db).0
    ≡ ok true
is_blacklisted-add_to_blacklist_example =
    is_blacklisted-add_to_blacklist answering answering noon (noon + 9 * hour) "b2" "shop"
      "203.0.113.9" life db refl (tt, tt)

-- A site that comes without settings.
abbrev blog : Site
blog = record shop { id = ""; domain = "blog.example"; settings = none }

abbrev new_blog : Site
new_blog = prepared noon "site-2" blog

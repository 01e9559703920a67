-- ===== src/Sites/SiteSettings.antt =====
-- Which settings a site has, from its creation on.
use human_guard.Base.{
  not, ◌||◌, String, ◌≡◌, refl, inl, inr, false, Option, none, some, List, [], ◌∷◌, arith, eq_iff,
  Bool-cases, any_of,
}
use human_guard.Errors.{ok}
use human_guard.Value.{FloatOps}
use human_guard.Clock.{Time}
use human_guard.Settings.{ModuleSettings, zero_settings}
use human_guard.Sites.{
  is_status, Faults, Site, SiteRow, Db, find_row, get_site_settings, prepared, column_of,
  create_site, clashes, insert_site, select_settings, update_settings, update_site_settings,
  map_rows, with_settings,
}

-- The settings that a new site is left with.
abbrev pub stored_settings : FloatOps → Option ModuleSettings → ModuleSettings
stored_settings f none = zero_settings f
stored_settings f (some s) = s

pub create_site_ok :
    (faults : Faults) (now : Time) (fresh : String) (site s : Site) (db : Db)
    → (create_site faults now fresh site db).1 ≡ ok s
    → (prepared now fresh site ≡ s)
      × ((create_site faults now fresh site db).0.sites
          ≡ record { site = prepared now fresh site; column = column_of site.settings } ∷ db.sites)
unfolding create_site
create_site_ok faults now fresh site s db made =
    elim (Bool-cases (faults insert_site || not (is_status (prepared now fresh site).status))) [
      | inl down ↦ ground arith
      | inr up ↦ elim (Bool-cases (any_of (clashes (prepared now fresh site)) db.sites)) [
        | inl clash ↦ ground arith
        | inr free ↦ (ground arith, rw (up, free, create_site) refl)
      ]
    ]

find_row-map_rows :
    (id : String) (g : SiteRow → SiteRow) (rows : List SiteRow) (r : SiteRow)
    → ((x : SiteRow) → (g x).site.id ≡ x.site.id)
    → find_row id rows ≡ some r
    → find_row id (map_rows id g rows) ≡ some (g r)
unfolding find_row
find_row-map_rows id g [] r same found = ground arith
find_row-map_rows id g (x ∷ xs) r same found =
    ground (
      arith,
      same x,
      eq_iff x.site.id id,
      eq_iff (g x).site.id id,
      find_row-map_rows id g xs r same,
    )

-- Settings that are written for a site that exists are read back unchanged, when neither statement
-- is refused.
pub get_site_settings-update_site_settings :
    (f : FloatOps) (faults : Faults) (now : Time) (id : String) (s : ModuleSettings) (r : SiteRow)
    (db : Db)
    → find_row id db.sites ≡ some r
    → faults update_settings ≡ false
    → faults select_settings ≡ false
    → get_site_settings f faults id (update_site_settings faults now id s db).0 ≡ s
unfolding get_site_settings update_site_settings
get_site_settings-update_site_settings f faults now id s r db found up up' =
    ground (arith, find_row-map_rows id (with_settings now s) db.sites r (λ x. refl) found)

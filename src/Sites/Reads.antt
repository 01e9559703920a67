-- ===== src/Sites/Reads.antt =====
-- backend/storage/site.go: the reads of sites by their domain and by their owner.
use human_guard.Base.{
  String, ◌≡◌, refl, sym, ap, ◌∙◌, false, Option, none, some, List, [], ◌∷◌, map, ◌==◌, eq_refl,
  ltb, if◌then◌else◌, keep,
}
use human_guard.Errors.{Result, ok, err, database, site_not_found}
use human_guard.Value.{FloatOps}
use human_guard.Clock.{Time}
use human_guard.Settings.{ModuleSettings}
use human_guard.Sites.{
  Faults, Site, SiteRow, Db, select_site, read_row, find_row, get_site, create_site, prepared,
  column_of,
}
use human_guard.Sites.SiteSettings.{stored_settings, create_site_ok}

unfoldable pub find_domain : String → List SiteRow → Option SiteRow
find_domain domain [] = none
find_domain domain (r ∷ rs) = if r.site.domain == domain then some r else find_domain domain rs

unfoldable pub get_site_by_domain : FloatOps → Faults → String → Db → Result Site
get_site_by_domain f faults domain db =
    if faults select_site then err database else elim (find_domain domain db.sites) [
      | none ↦ err site_not_found
      | some r ↦ ok (read_row f r)
    ]

-- ORDER BY created_at DESC.
unfoldable pub insert_newer : Site → List Site → List Site
insert_newer s [] = s ∷ []
insert_newer s (x ∷ xs) =
    let later = insert_newer s xs in if ltb s.created_at x.created_at then x ∷ later else s ∷ x ∷ xs

unfoldable pub order_sites : List Site → List Site
order_sites [] = []
order_sites (s ∷ ss) = insert_newer s (order_sites ss)

unfoldable pub get_sites_by_user_id : FloatOps → Faults → String → Db → Result (List Site)
get_sites_by_user_id f faults user_id db =
    if faults select_site
    then err database
    else ok (order_sites (map (read_row f) (keep (λ r. r.site.user_id == user_id) db.sites)))

read_created :
    (f : FloatOps) (s : Site) (o : Option ModuleSettings)
    → read_row f (record { site = s; column = column_of o })
      ≡ record s { settings = some (stored_settings f o) }
read_created f s none = refl
read_created f s (some x) = refl

module _ (f : FloatOps) (faults : Faults) (r : SiteRow) (rows : List SiteRow) (db : Db)
    (first : db.sites ≡ r ∷ rows) (up : faults select_site ≡ false) where
  get_site_first : get_site f faults r.site.id db ≡ ok (read_row f r)
  unfolding get_site find_row
  get_site_first = rw (up, first, get_site) (rw (eq_refl r.site.id, find_row) refl)

  get_site_by_domain_first : get_site_by_domain f faults r.site.domain db ≡ ok (read_row f r)
  unfolding get_site_by_domain find_domain
  get_site_by_domain_first =
      rw (up, first, get_site_by_domain) (rw (eq_refl r.site.domain, find_domain) refl)

-- A site that `CreateSite` has made is found by its identifier and by its domain alike, as it was
-- handed back, with the settings that were stored, when the database answers.
pub get_site-create_site :
    (f : FloatOps) (faults : Faults) (now : Time) (fresh : String) (site s : Site) (db : Db)
    → (create_site faults now fresh site db).1 ≡ ok s
    → faults select_site ≡ false
    → (get_site f faults s.id (create_site faults now fresh site db).0
        ≡ ok (record s { settings = some (stored_settings f site.settings) }))
      × (get_site_by_domain f faults s.domain (create_site faults now fresh site db).0
          ≡ ok (record s { settings = some (stored_settings f site.settings) }))
get_site-create_site f faults now fresh site s db made up =
    let (same, there) = create_site_ok faults now fresh site s db made in
    let made_db = (create_site faults now fresh site db).0 in
    let row : SiteRow = record {
      site = prepared now fresh site;
      column = column_of site.settings;
    } in
    let read =
      ap (λ x. ok x) (read_created f (prepared now fresh site) site.settings)
      ∙ ap (λ (x : Site). ok (record x { settings = some (stored_settings f site.settings) }))
          same in
    (
      ap (λ (x : Site). get_site f faults x.id made_db) (sym same)
          ∙ get_site_first f faults row db.sites made_db there up
          ∙ read,
      ap (λ (x : Site). get_site_by_domain f faults x.domain made_db) (sym same)
          ∙ get_site_by_domain_first f faults row db.sites made_db there up
          ∙ read,
    )

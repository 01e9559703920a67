-- ===== src/SiteApi/Edits.antt =====
-- backend/handlers/site.go, `UpdateSite`, `ActivateSite` and `SuspendSite`: the answer is what a later
-- `GET` reads.
use mathlib.Core.Path.{subst}
use human_guard.Base.{
  String, ◌≡◌, refl, sym, ap, ◌∙◌, ◌⊎◌, inl, inr, true, false, not, ◌&&◌, ◌||◌, some, List, [], ◌∷◌,
  arith, ◌==◌, eq_iff, Bool-cases, Option-cases, any_of, if◌then◌else◌,
}
use human_guard.Errors.{database, site_not_found, Error, Result-cases, ok, err}
use human_guard.Clock.{Time}
use human_guard.Value.{FloatOps}
use human_guard.Settings.{Column, absent, malformed, empty_object, document, unmarshal}
use human_guard.Http.{parsed}
use human_guard.Sites.{
  is_status, update_site_query, Site, SiteRow, Db, Query, Faults, get_site, find_row, map_rows,
  read_row, is_row, update_row, update_site, coalesced, select_site,
}
use human_guard.World.{Env}
use human_guard.SiteApi.{
  UpdateSiteBody, edited_site, edit_site, updated_reply, serve_update_site, serve_get_site,
}
use human_guard.Reply.{failed, json}

find_row-map_rows :
    (id : String) (g : SiteRow → SiteRow) (rows : List SiteRow) (r : SiteRow)
    → ((x : SiteRow) → (g x).site.id ≡ x.site.id)
    → find_row id rows ≡ some r
    → find_row id (map_rows id g rows) ≡ some (g r)
unfolding find_row
find_row-map_rows id g [] r same found = ground arith
find_row-map_rows id g (x ∷ rows) r same found = elim (Bool-cases (x.site.id == id)) [
  | inl here ↦
      let it : x ≡ r = ground arith in
      let known : ((g x).site.id == id) ≡ true = ap (λ i. i == id) (same x) ∙ here in
      rw here (rw known (ap (λ y. some (g y)) it))
  | inr other ↦ rw other (rw other (find_row-map_rows id g rows r same (ground arith)))
]

find_row-id :
    (id : String) (rows : List SiteRow) (r : SiteRow) → find_row id rows ≡ some r → r.site.id ≡ id
unfolding find_row
find_row-id id [] r found = ground arith
find_row-id id (x ∷ rows) r found = ground (arith, eq_iff x.site.id id, find_row-id id rows r)

-- A site that is read stands in its row, and the statement was not refused.
get_site_row :
    (env : Env) (id : String) (db : Db) (s : Site)
    → get_site env.floats env.faults id db ≡ ok s
    → (r : SiteRow) × (find_row id db.sites ≡ some r)
      × (read_row env.floats r ≡ s)
      × (env.faults select_site ≡ false)
unfolding get_site
get_site_row env id db s got = elim (Bool-cases (env.faults select_site)) [
  | inl refused ↦ ground arith
  | inr up ↦ elim (Option-cases (find_row id db.sites)) [
    | inl missing ↦ ground arith
    | inr (r, found) ↦
        let read : get_site env.floats env.faults id db ≡ ok (read_row env.floats r) =
          rw (up, found) refl in
        (r, found, ground arith, up)
  ]
]

update_row-cases :
    (q : Query) (faults : Faults) (id status : String) (g : SiteRow → SiteRow) (db : Db)
    → ((e : Error) × (update_row q faults id status g db ≡ (db, err e)))
      ⊎ (update_row q faults id status g db ≡ (record db { sites = map_rows id g db.sites }, ok tt))
update_row-cases q faults id status g db =
    elim (Bool-cases (faults q || (any_of (is_row id) db.sites && not (is_status status)))) [
      | inl refused ↦ inl (database, rw refused refl)
      | inr fine ↦ elim (Bool-cases (any_of (is_row id) db.sites)) [
        | inl there ↦ inr (rw (fine, there) refl)
        | inr missing ↦ inl (site_not_found, rw (fine, missing) refl)
      ]
    ]

unmarshal-coalesced :
    (f : FloatOps) (c : Column) → unmarshal f (coalesced (unmarshal f c) c) ≡ unmarshal f c
unmarshal-coalesced f absent = refl
unmarshal-coalesced f malformed = refl
unmarshal-coalesced f empty_object = refl
unmarshal-coalesced f (document s) = refl

-- What `UpdateSite` writes into a row, and what it then reads as.
abbrev rewritten : Time → Site → SiteRow → SiteRow
rewritten now s r = record {
  site = record (r.site) {
    name = s.name;
    origin_server = s.origin_server;
    status = s.status;
    updated_at = now;
  };
  column = coalesced s.settings r.column;
}

read_rewritten :
    (f : FloatOps) (now : Time) (b : UpdateSiteBody) (r : SiteRow)
    → read_row f (rewritten now (edited_site b (read_row f r)) r)
      ≡ record (edited_site b (read_row f r)) { updated_at = now }
read_rewritten f now b r =
    ap (λ o. record (edited_site b (read_row f r)) { updated_at = now; settings = o })
      (unmarshal-coalesced f r.column)

reads_rewritten :
    (env : Env) (id : String) (b : UpdateSiteBody) (db : Db) (r : SiteRow) (old : Site)
    → find_row id db.sites ≡ some r
    → read_row env.floats r ≡ old
    → env.faults select_site ≡ false
    → serve_get_site env id
        (record db { sites = map_rows id (rewritten env.now (edited_site b old)) db.sites })
      ≡ json 200 (record (edited_site b old) { updated_at = env.now })
unfolding serve_get_site get_site
reads_rewritten env id b db r old found read up =
    let stored =
      find_row-map_rows id (rewritten env.now (edited_site b old)) db.sites r (λ x. refl) found in
    rw (serve_get_site, get_site, up, stored)
      (ap (λ x. json 200 x)
        (subst
          (λ (o : Site).
            read_row env.floats (rewritten env.now (edited_site b o) r)
            ≡ record (edited_site b o) { updated_at = env.now })
          read (read_rewritten env.floats env.now b r)))

-- A change of a site that is answered with 200 is stored: the site that the answer shows is the one that
-- every later `GET` of the site shows. It has the name, the origin server and the status of the body,
-- where these are not empty, the time of the change, and all else as it was: the identifier, the
-- owner, the domain, the settings and the time of its creation.
pub serve_get_site-serve_update_site :
    (env : Env) (id : String) (b : UpdateSiteBody) (db : Db) (answer : Site)
    → (serve_update_site env id (parsed b) db).1 ≡ json 200 answer
    → (serve_get_site env id (serve_update_site env id (parsed b) db).0 ≡ json 200 answer)
      × ((old : Site) × (get_site env.floats env.faults id db ≡ ok old)
          × (answer ≡ record old {
            name = if b.name == "" then old.name else b.name;
            origin_server = if b.origin_server == "" then old.origin_server else b.origin_server;
            status = if b.status == "" then old.status else b.status;
            updated_at = env.now;
          }))
unfolding serve_update_site update_site
serve_get_site-serve_update_site env id b db answer done =
    elim (Result-cases (get_site env.floats env.faults id db)) [
      | inl (e, missing) ↦ ground arith
      | inr (old, got) ↦
          let (r, found, read, up) = get_site_row env id db old got in
          let new = edited_site b old in
          let at : serve_update_site env id (parsed b) db
              ≡ updated_reply env.now new (update_site env.faults env.now new db) =
            ap (λ x. edit_site env b x db) got in
          elim (update_row-cases update_site_query env.faults new.id new.status
            (rewritten env.now new) db) [
              | inl (e, failing) ↦
                  let whole : serve_update_site env id (parsed b) db ≡ (db, failed 500 e) =
                    at ∙ ap (updated_reply env.now new) failing in
                  ground arith
              | inr made ↦
                  let whole = at ∙ ap (updated_reply env.now new) made in
                  let told : json 200 (record new { updated_at = env.now }) ≡ json 200 answer =
                    sym (ap (λ x. x.1) whole) ∙ done in
                  let named : old.id ≡ id =
                    ap (λ (x : Site). x.id) (sym read) ∙ find_row-id id db.sites r found in
                  (
                    ap (λ x. serve_get_site env id x.0) whole
                        ∙ ap
                            (λ i.
                              serve_get_site env id
                                (record db { sites = map_rows i (rewritten env.now new) db.sites }))
                            named
                        ∙ reads_rewritten env id b db r old found read up
                        ∙ told,
                    (old, got, ground arith),
                  )
            ]
    ]

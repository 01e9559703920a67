-- ===== src/SiteApi/Bans.antt =====
-- backend/handlers/site.go with the check of backend/handlers/visitor_session.go: what a ban by hand
-- does to the visitor.
use human_guard.Base.{
  pos, ℕ, ◌+◌, ◌-◌, ◌*◌, ◌≤◌, ◌<◌, ◌≡◌, refl, true, false, some, arith, ◌==◌, String, sym, ap, ◌∙◌,
  inl, inr, Bool, List, eq_refl, Bool-cases, ◌⊎◌, leb,
}
use human_guard.Errors.{Result-cases, ok}
use human_guard.Clock.{Time, minute}
use human_guard.Http.{parsed, Body, Request, header, get_real_ip}
use human_guard.Sites.{
  in_force, upsert_blacklist, BlacklistEntry, select_blacklist, remove_from_blacklist, Db,
  add_to_blacklist, Site, get_site, is_blacklisted,
}
use human_guard.Auth.{Identity}
use human_guard.Sites.{SiteRow}
use human_guard.Sites.Blacklist.{
  HasUniquePairs, is_blacklisted-add_to_blacklist, is_blacklisted-remove_from_blacklist,
}
use human_guard.Reply.{json, no_content}
use human_guard.World.{World, Env}
use human_guard.Visitor.{
  CheckBody, check_request, check_site, check_body, is_active_site, blocked_ip,
}
use human_guard.SiteApi.Lists.{
  ban_entry, may_manage, BanBody, ban, serve_remove_from_blacklist, serve_add_to_blacklist,
  expiry_of,
}

-- For a positive number of minutes up to 307445734, a ban by hand has an end. Up to 153722867 (292 years)
-- it is that many minutes ahead; beyond that the product no longer fits 63 bits of nanoseconds and is
-- read as negative, and the ban is over before it begins. The clock is later than the year 292.
pub expiry_of-bounds :
    (now : Time) (n : ℕ)
    → 0 < n
    → n ≤ 307_445_734
    → 9_223_372_036_854_775_808 ≤ now
    → (t : Time) × (expiry_of now (some (pos n)) ≡ some t)
      × (((n ≤ 153_722_867) × (t ≡ now + n * minute)) ⊎ ((153_722_867 < n) × (t < now)))
expiry_of-bounds now n positive bounded late = elim (Bool-cases (leb n 153_722_867)) [
  | inl small ↦ (now + n * minute, ground arith, inl (ground arith, refl))
  | inr large ↦ (
    now - (18_446_744_073_709_551_616 - n * minute),
    ground arith,
    inr (ground arith, ground arith),
  )
]

module _ (env : Env) (r : Request) (body : Body CheckBody) (w : World) (site : Site)
    (asked : (r.method == "OPTIONS") ≡ false) (named : (header "X-Site-ID" r == "") ≡ false)
    (found : get_site env.floats env.faults (header "X-Site-ID" r) w.db ≡ ok site)
    (active : is_active_site site ≡ true) where
  -- The check of a request for an active site is decided by the blacklist before the body is read.
  check_request-listed :
      is_blacklisted env.faults env.now (header "X-Site-ID" r) (get_real_ip r) w.db ≡ ok true
      → check_request env r body w ≡ (w, blocked_ip)
  unfolding check_request check_site
  check_request-listed listed = rw (asked, named, found, check_site, active, listed) refl

  check_request-unlisted :
      is_blacklisted env.faults env.now (header "X-Site-ID" r) (get_real_ip r) w.db ≡ ok false
      → check_request env r body w ≡ check_body env r body site (header "X-Site-ID" r) w
  unfolding check_request check_site
  check_request-unlisted free = rw (asked, named, found, check_site, active, free) refl

-- An answer 201 to a ban: the statement was not refused, and its result is the new state.
ban_made :
    (env : Env) (is_ipv4 : String → Bool) (who : Identity) (id : String) (b : BanBody) (db : Db)
    (e : BlacklistEntry)
    → (serve_add_to_blacklist env is_ipv4 who id (parsed b) db).1 ≡ json 201 e
    → (env.faults upsert_blacklist ≡ false)
      × ((serve_add_to_blacklist env is_ipv4 who id (parsed b) db).0
          ≡ (add_to_blacklist env.faults env.now env.fresh (ban_entry env.now id b) db).0)
unfolding serve_add_to_blacklist ban add_to_blacklist
ban_made env is_ipv4 who id b db e made =
    elim (Result-cases (get_site env.floats env.faults id db)) [
      | inl (x, missing) ↦ ground arith
      | inr (site, found) ↦ elim (Bool-cases (may_manage who site)) [
        | inr barred ↦ ground arith
        | inl may ↦ elim (Bool-cases (b.ip == "")) [
          | inl absent ↦ ground arith
          | inr given ↦ elim (Bool-cases (is_ipv4 b.ip)) [
            | inr wrong ↦ ground arith
            | inl right ↦ elim (Bool-cases (env.faults upsert_blacklist)) [
              | inl refused ↦ ground arith
              | inr up ↦ (up, rw (found, may, given, right, up) refl)
            ]
          ]
        ]
      ]
    ]

lift_made :
    (env : Env) (who : Identity) (id ip : String) (db : Db)
    → (serve_remove_from_blacklist env who id ip db).1 ≡ no_content
    → ((serve_remove_from_blacklist env who id ip db).0
        ≡ (remove_from_blacklist env.faults id ip db).0)
      × ((remove_from_blacklist env.faults id ip db).1 ≡ ok tt)
unfolding serve_remove_from_blacklist
lift_made env who id ip db made = elim (Result-cases (get_site env.floats env.faults id db)) [
  | inl (x, missing) ↦ ground arith
  | inr (site, found) ↦ elim (Bool-cases (may_manage who site)) [
    | inr barred ↦ ground arith
    | inl may ↦ elim (Result-cases (remove_from_blacklist env.faults id ip db).1) [
      | inl (x, failing) ↦ ground arith
      | inr (_, done) ↦ (rw (found, may, done) refl, done)
    ]
  ]
]

get_site_same :
    (env : Env) (id : String) (db db' : Db)
    → db.sites ≡ db'.sites
    → get_site env.floats env.faults id db ≡ get_site env.floats env.faults id db'
unfolding get_site
get_site_same env id db db' same =
    ap (λ (rows : List SiteRow). get_site env.floats env.faults id (record db { sites = rows }))
      same

add_sites_kept :
    (env : Env) (now : Time) (fresh : String) (e : BlacklistEntry) (db : Db)
    → (add_to_blacklist env.faults now fresh e db).0.sites ≡ db.sites
unfolding add_to_blacklist
add_sites_kept env now fresh e db = ground arith

remove_sites_kept :
    (env : Env) (id ip : String) (db : Db)
    → (remove_from_blacklist env.faults id ip db).0.sites ≡ db.sites
unfolding remove_from_blacklist
remove_sites_kept env id ip db = ground arith

banned :
    (env : Env) (later : Time) (id ip : String) (b : BanBody) (db : Db)
    → env.faults upsert_blacklist ≡ false
    → HasUniquePairs db.blacklist
    → env.faults select_blacklist ≡ false
    → ip ≡ b.ip
    → in_force later (ban_entry env.now id b) ≡ true
    → is_blacklisted env.faults later id ip
        (add_to_blacklist env.faults env.now env.fresh (ban_entry env.now id b) db).0
      ≡ ok true
banned env later id ip b db stored unique up from lasts =
    is_blacklisted-add_to_blacklist env.faults env.faults env.now later env.fresh id ip
      (ban_entry env.now id b) db stored unique
    ∙ rw (from, eq_refl id, eq_refl b.ip, up, lasts) refl

lifted :
    (env : Env) (later : Time) (id ip : String) (db : Db)
    → env.faults select_blacklist ≡ false
    → (remove_from_blacklist env.faults id ip db).1 ≡ ok tt
    → is_blacklisted env.faults later id ip (remove_from_blacklist env.faults id ip db).0 ≡ ok false
unfolding remove_from_blacklist
lifted env later id ip db up done =
    elim (is_blacklisted-remove_from_blacklist env.faults later id ip id ip db) [
      | inl (_, free) ↦ free ∙ rw (eq_refl id, eq_refl ip, up) refl
      | inr (why, _) ↦ elim why [ inl refused ↦ ground arith | inr absent ↦ ground arith ]
    ]

-- A ban by hand that was answered with 201 stops the visitor: as long as its expiry has not passed, the
-- check refuses every request for the site from the banned address, and changes nothing.
pub check_request-serve_add_to_blacklist :
    (env : Env) (is_ipv4 : String → Bool) (who : Identity) (b : BanBody) (w : World)
    (e : BlacklistEntry) (site : Site) (later : Time) (r : Request) (body : Body CheckBody)
    → (serve_add_to_blacklist env is_ipv4 who (header "X-Site-ID" r) (parsed b) w.db).1 ≡ json 201 e
    → HasUniquePairs w.db.blacklist
    → env.faults select_blacklist ≡ false
    → (r.method == "OPTIONS") ≡ false
    → (header "X-Site-ID" r == "") ≡ false
    → get_real_ip r ≡ b.ip
    → get_site env.floats env.faults (header "X-Site-ID" r) w.db ≡ ok site
    → is_active_site site ≡ true
    → in_force later (ban_entry env.now (header "X-Site-ID" r) b) ≡ true
    → let w' = record w {
      db = (serve_add_to_blacklist env is_ipv4 who (header "X-Site-ID" r) (parsed b) w.db).0;
    } in
      check_request (record env { now = later }) r body w' ≡ (w', blocked_ip)
check_request-serve_add_to_blacklist env is_ipv4 who b w e site later r body made unique up asked
      named from found active lasts =
    let id = header "X-Site-ID" r in
    let (stored, same) = ban_made env is_ipv4 who id b w.db e made in
    let db = (add_to_blacklist env.faults env.now env.fresh (ban_entry env.now id b) w.db).0 in
    let there =
      get_site_same env id db w.db
        (add_sites_kept env env.now env.fresh (ban_entry env.now id b) w.db)
      ∙ found in
    let listed = banned env later id (get_real_ip r) b w.db stored unique up from lasts in
    ap (λ d. check_request (record env { now = later }) r body (record w { db = d })) same
    ∙ check_request-listed (record env { now = later }) r body (record w { db = db }) site asked
        named there active listed
    ∙ ap (λ d. (record w { db = d }, blocked_ip)) (sym same)

-- Once a ban has been lifted, answered with 204, the check goes on to read the body of a request from this
-- address, whatever stood on the list before.
pub check_request-serve_remove_from_blacklist :
    (env : Env) (who : Identity) (w : World) (site : Site) (later : Time) (r : Request)
    (body : Body CheckBody)
    → (serve_remove_from_blacklist env who (header "X-Site-ID" r) (get_real_ip r) w.db).1
      ≡ no_content
    → env.faults select_blacklist ≡ false
    → (r.method == "OPTIONS") ≡ false
    → (header "X-Site-ID" r == "") ≡ false
    → get_site env.floats env.faults (header "X-Site-ID" r) w.db ≡ ok site
    → is_active_site site ≡ true
    → let w' = record w {
      db = (serve_remove_from_blacklist env who (header "X-Site-ID" r) (get_real_ip r) w.db).0;
    } in
      check_request (record env { now = later }) r body w'
      ≡ check_body (record env { now = later }) r body site (header "X-Site-ID" r) w'
check_request-serve_remove_from_blacklist env who w site later r body made up asked named found
      active =
    let id = header "X-Site-ID" r in
    let (same, done) = lift_made env who id (get_real_ip r) w.db made in
    let db = (remove_from_blacklist env.faults id (get_real_ip r) w.db).0 in
    let there =
      get_site_same env id db w.db (remove_sites_kept env id (get_real_ip r) w.db) ∙ found in
    ap (λ d. check_request (record env { now = later }) r body (record w { db = d })) same
    ∙ check_request-unlisted (record env { now = later }) r body (record w { db = db }) site asked
        named there active (lifted env later id (get_real_ip r) w.db up done)
    ∙ ap (λ d. check_body (record env { now = later }) r body site id (record w { db = d }))
        (sym same)

-- ===== src/SiteApi/Guards.antt =====
-- backend/handlers/site.go: who changes a site's blacklist.
use human_guard.Base.{String, ◌≡◌, refl, ◌⊎◌, inl, inr, Bool, true, arith, ◌==◌, eq_iff, Bool-cases}
use human_guard.Errors.{Result-cases, ok}
use human_guard.Http.{Body}
use human_guard.Sites.{remove_from_blacklist, Site, Db, get_site}
use human_guard.World.{Env}
use human_guard.Auth.{Identity}
use human_guard.SiteApi.Lists.{
  guarded, may_manage, BanBody, ban, serve_add_to_blacklist, serve_remove_from_blacklist,
  lift_reply,
}
use human_guard.Reply.{Reply}

-- The requester owns the site of the URL, which is there, or is an administrator.
abbrev pub Manages : Env → Identity → String → Db → Type 0
Manages env who id db =
    (site : Site) × (get_site env.floats env.faults id db ≡ ok site)
    × ((site.user_id ≡ who.user_id) ⊎ (who.role ≡ "admin"))

may_manage-cases :
    (who : Identity) (site : Site)
    → may_manage who site ≡ true
    → (site.user_id ≡ who.user_id) ⊎ (who.role ≡ "admin")
may_manage-cases who site h = elim (Bool-cases (site.user_id == who.user_id)) [
  | inl own ↦ inl ((eq_iff site.user_id who.user_id).0 own)
  | inr other ↦ inr (ground (arith, eq_iff who.role "admin"))
]

pub guarded-Manages {ℓ} :
    {A : Type ℓ} (env : Env) (who : Identity) (id : String) (db : Db) (next : Db × Reply A)
    → Manages env who id db ⊎ ((guarded who (get_site env.floats env.faults id db) db next).0 ≡ db)
guarded-Manages env who id db next = elim (Result-cases (get_site env.floats env.faults id db)) [
  | inl (e, missing) ↦ inr (rw missing refl)
  | inr (site, found) ↦ elim (Bool-cases (may_manage who site)) [
    | inl may ↦ inl (site, found, may_manage-cases who site may)
    | inr barred ↦ inr (rw (found, barred) refl)
  ]
]

-- A request that adds to the blacklist of a site, or removes from it, changes nothing in the tables,
-- whatever its body, unless the requester owns the site or is an administrator.
pub blacklist_guarded :
    (env : Env) (is_ipv4 : String → Bool) (who : Identity) (id ip : String) (body : Body BanBody)
    (db : Db)
    → Manages env who id db
      ⊎ (((serve_add_to_blacklist env is_ipv4 who id body db).0 ≡ db)
          × ((serve_remove_from_blacklist env who id ip db).0 ≡ db))
unfolding serve_add_to_blacklist serve_remove_from_blacklist
blacklist_guarded env is_ipv4 who id ip body db =
    elim (guarded-Manages env who id db (ban env is_ipv4 id body db)) [
      | inl may ↦ inl may
      | inr kept ↦
          elim (guarded-Manages env who id db
            (lift_reply (remove_from_blacklist env.faults id ip db))) [
              | inl may ↦ inl may
              | inr kept' ↦ inr (kept, kept')
            ]
    ]

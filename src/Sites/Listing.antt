-- ===== src/Sites/Listing.antt =====
-- backend/storage/blacklist.go, `ListBlacklist`: the entries in force, the newest first.
use mathlib.Core.Path.{subst}
use mathlib.Core.List.{Perm}
use mathlib.Core.List.Perm
use human_guard.Base.{
  ℕ, ◌≤◌, String, ◌≡◌, inl, inr, ◌&&◌, List, [], ◌∷◌, arith, ◌==◌, ltb, Bool-cases, keep, All,
}
use human_guard.Errors.{ok}
use human_guard.Clock.{Time}
use human_guard.Sites.{
  Db, Faults, BlacklistEntry, in_force, insert_by_age, newest_first, list_entries, list_blacklist,
}

insert_by_age-perm :
    (e : BlacklistEntry) (l : List BlacklistEntry) → Perm (insert_by_age e l) (e ∷ l)
unfolding insert_by_age
insert_by_age-perm e [] = Perm.refl (e ∷ [])
insert_by_age-perm e (x ∷ l) = elim (Bool-cases (ltb e.created_at x.created_at)) [
  | inl older ↦ rw older (Perm.trans (Perm.cons x (insert_by_age-perm e l)) (Perm.swap e x l))
  | inr newer ↦ rw newer (Perm.refl (e ∷ x ∷ l))
]

newest_first-perm : (l : List BlacklistEntry) → Perm (newest_first l) l
unfolding newest_first
newest_first-perm [] = Perm.refl []
newest_first-perm (e ∷ l) =
    Perm.trans (insert_by_age-perm e (newest_first l)) (Perm.cons e (newest_first-perm l))

-- No entry is older than one that follows it.
abbrev pub IsNewestFirst : List BlacklistEntry → Type 0
IsNewestFirst [] = Unit
IsNewestFirst (e ∷ l) = All (λ x. x.created_at ≤ e.created_at) l × IsNewestFirst l

All-mono :
    (a b : ℕ) (l : List BlacklistEntry)
    → a ≤ b
    → All (λ x. x.created_at ≤ a) l
    → All (λ x. x.created_at ≤ b) l
All-mono a b [] h k = tt
All-mono a b (x ∷ l) h k = (omega arith, All-mono a b l h k.1)

insert_by_age-All :
    (b : ℕ) (e : BlacklistEntry) (l : List BlacklistEntry)
    → e.created_at ≤ b
    → All (λ x. x.created_at ≤ b) l
    → All (λ x. x.created_at ≤ b) (insert_by_age e l)
unfolding insert_by_age
insert_by_age-All b e [] h k = (h, tt)
insert_by_age-All b e (x ∷ l) h k = ground (arith, insert_by_age-All b e l h)

insert_by_age-IsNewestFirst :
    (e : BlacklistEntry) (l : List BlacklistEntry)
    → IsNewestFirst l
    → IsNewestFirst (insert_by_age e l)
unfolding insert_by_age
insert_by_age-IsNewestFirst e [] s = (tt, tt)
insert_by_age-IsNewestFirst e (x ∷ l) s = elim (Bool-cases (ltb e.created_at x.created_at)) [
  | inl older ↦
      rw older
        (insert_by_age-All x.created_at e l (ground arith) s.0, insert_by_age-IsNewestFirst e l s.1)
  | inr newer ↦
      rw newer ((ground arith, All-mono x.created_at e.created_at l (ground arith) s.0), s)
]

newest_first-IsNewestFirst : (l : List BlacklistEntry) → IsNewestFirst (newest_first l)
unfolding newest_first
newest_first-IsNewestFirst [] = tt
newest_first-IsNewestFirst (e ∷ l) =
    insert_by_age-IsNewestFirst e (newest_first l) (newest_first-IsNewestFirst l)

-- A listing that succeeds shows the site's entries that are in force, each as often as it stands
-- in the table, the newest first.
pub list_entries-perm :
    (faults : Faults) (now : Time) (site : String) (db : Db) (l : List BlacklistEntry)
    → list_entries faults now site db ≡ ok l
    → Perm l (keep (λ e. e.site_id == site && in_force now e) db.blacklist) × IsNewestFirst l
unfolding list_entries
list_entries-perm faults now site db l h = elim (Bool-cases (faults list_blacklist)) [
  | inl refused ↦ cc
  | inr fine ↦
      let entries = keep (λ e. e.site_id == site && in_force now e) db.blacklist in
      let same : newest_first entries ≡ l = ground arith in
      subst (λ x. Perm x entries × IsNewestFirst x) same
        (newest_first-perm entries, newest_first-IsNewestFirst entries)
]

-- ===== src/Sites/Blacklist.antt =====
-- backend/storage/blacklist.go: the blacklist is a partial map from site and address to an expiry.
use human_guard.Base.{
  String, ◌≡◌, refl, inl, inr, Bool, true, false, not, ◌&&◌, List, [], ◌∷◌, arith, ◌==◌, eq_iff,
  if◌then◌else◌, Bool-cases, keep, any_of, All, ◌⊎◌,
}
use human_guard.Clock.{Time}
use human_guard.Sites.{
  ok, stamped, remove_from_blacklist, add_to_blacklist, is_blacklisted, upsert_blacklist,
  select_blacklist, delete_blacklist, Db, Faults, BlacklistEntry, is_pair, in_force, upsert, blocks,
}

-- The constraint UNIQUE (site_id, ip) of the table.
abbrev pub NoPair : BlacklistEntry → List BlacklistEntry → Type 0
NoPair e l = All (λ x. is_pair e.site_id e.ip x ≡ false) l

abbrev pub HasUniquePairs : List BlacklistEntry → Type 0
HasUniquePairs [] = Unit
HasUniquePairs (e ∷ l) = NoPair e l × HasUniquePairs l

is_pair_swap : (e x : BlacklistEntry) → is_pair e.site_id e.ip x ≡ is_pair x.site_id x.ip e
is_pair_swap e x = ground (
  arith,
  eq_iff x.site_id e.site_id,
  eq_iff e.site_id x.site_id,
  eq_iff x.ip e.ip,
  eq_iff e.ip x.ip,
)

upsert-NoPair :
    (x e : BlacklistEntry) (l : List BlacklistEntry)
    → is_pair x.site_id x.ip e ≡ false
    → NoPair x l
    → NoPair x (upsert e l)
unfolding upsert
upsert-NoPair x e [] d h = (d, tt)
upsert-NoPair x e (y ∷ l) d h = ground (arith, upsert-NoPair x e l d)

-- An insertion keeps the constraint.
pub upsert-HasUniquePairs :
    (e : BlacklistEntry) (l : List BlacklistEntry) → HasUniquePairs l → HasUniquePairs (upsert e l)
unfolding upsert
upsert-HasUniquePairs e [] u = (tt, tt)
upsert-HasUniquePairs e (x ∷ l) u = elim (Bool-cases (is_pair e.site_id e.ip x)) [
  | inl same ↦ rw same u
  | inr other ↦
      rw other
        (upsert-NoPair x e l (ground (arith, is_pair_swap e x)) u.0, upsert-HasUniquePairs e l u.1)
]

module _ (now : Time) (site ip : String) where
  abbrev listed : List BlacklistEntry → Bool
  listed l = any_of (blocks now site ip) l

  listed_none :
      (e : BlacklistEntry) (l : List BlacklistEntry)
      → is_pair site ip e ≡ true
      → NoPair e l
      → listed l ≡ false
  listed_none e [] p h = refl
  listed_none e (x ∷ l) p h =
      ground (arith, listed_none e l p h.1, eq_iff e.site_id site, eq_iff e.ip ip)

  listed-upsert :
      (e : BlacklistEntry) (l : List BlacklistEntry)
      → HasUniquePairs l
      → listed (upsert e l) ≡ (if is_pair site ip e then in_force now e else listed l)
  unfolding upsert
  listed-upsert e [] u = ground arith
  listed-upsert e (x ∷ l) u = ground (
    arith,
    listed-upsert e l u.1,
    listed_none x l,
    eq_iff x.site_id e.site_id,
    eq_iff x.ip e.ip,
    eq_iff x.site_id site,
    eq_iff x.ip ip,
    eq_iff e.site_id site,
    eq_iff e.ip ip,
  )

  listed-keep :
      (s' i' : String) (l : List BlacklistEntry)
      → listed (keep (λ e. not (is_pair s' i' e)) l)
        ≡ (if s' == site && i' == ip then false else listed l)
  listed-keep s' i' [] = ground arith
  listed-keep s' i' (x ∷ l) = ground (
    arith,
    listed-keep s' i' l,
    eq_iff x.site_id s',
    eq_iff x.ip i',
    eq_iff x.site_id site,
    eq_iff x.ip ip,
    eq_iff s' site,
    eq_iff i' ip,
  )

-- After an entry has been added, its address is blacklisted on its site exactly as long as the
-- entry's own expiry says, whatever stood there before, and every other pair answers as before;
-- this holds under the table's uniqueness, when the statements are not refused.
pub is_blacklisted-add_to_blacklist :
    (faults check : Faults) (now later : Time) (fresh site ip : String) (e : BlacklistEntry)
    (db : Db)
    → faults upsert_blacklist ≡ false
    → HasUniquePairs db.blacklist
    → is_blacklisted check later site ip (add_to_blacklist faults now fresh e db).0 ≡ (
        if is_pair site ip e && not (check select_blacklist)
        then ok (in_force later e)
        else is_blacklisted check later site ip db)
unfolding is_blacklisted add_to_blacklist
is_blacklisted-add_to_blacklist faults check now later fresh site ip e db up u =
    ground (arith, listed-upsert later site ip (stamped now fresh e) db.blacklist u)

pub add_to_blacklist-HasUniquePairs :
    (faults : Faults) (now : Time) (fresh : String) (e : BlacklistEntry) (db : Db)
    → HasUniquePairs db.blacklist
    → HasUniquePairs (add_to_blacklist faults now fresh e db).0.blacklist
unfolding add_to_blacklist
add_to_blacklist-HasUniquePairs faults now fresh e db u =
    ground (arith, upsert-HasUniquePairs (stamped now fresh e) db.blacklist u)

-- A removal either succeeds, and then the pair is off the blacklist and every other pair is as it
-- was, or it changes nothing, because no entry stands under the pair or the statement is refused.
pub is_blacklisted-remove_from_blacklist :
    (faults : Faults) (later : Time) (s i site ip : String) (db : Db)
    → (((remove_from_blacklist faults s i db).1 ≡ ok tt)
        × (is_blacklisted faults later site ip (remove_from_blacklist faults s i db).0 ≡ (
            if s == site && i == ip && not (faults select_blacklist)
            then ok false
            else is_blacklisted faults later site ip db)))
      ⊎ (((faults delete_blacklist ≡ true) ⊎ (any_of (is_pair s i) db.blacklist ≡ false))
          × ((remove_from_blacklist faults s i db).0 ≡ db))
unfolding is_blacklisted remove_from_blacklist
is_blacklisted-remove_from_blacklist faults later s i site ip db =
    ground (arith, listed-keep later site ip s i db.blacklist)

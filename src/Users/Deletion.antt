-- ===== src/Users/Deletion.antt =====
-- backend/storage/user.go, `DeleteUser`: what is left of a user who is deleted.
use human_guard.Base.{
  keep-All, All-weaken, String, ◌≡◌, ap, ◌∙◌, inl, inr, true, false, not, ◌&&◌, none, List, [], ◌∷◌,
  arith, ◌==◌, eq_iff, if◌then◌else◌, keep, All,
}
use human_guard.Users.Outcomes.{delete_user-cases}
use human_guard.Errors.{ok, err, database, user_not_found}
use human_guard.Users.{
  User, UserDb, UserFaults, has_user_id, find_user, delete_user, get_user_by_id, found_user,
  select_user,
}

pub find_user-keep :
    (id probe : String) (us : List User)
    → find_user probe (keep (λ u. not (has_user_id id u)) us)
      ≡ (if id == probe then none else find_user probe us)
unfolding find_user
find_user-keep id probe [] = ground arith
find_user-keep id probe (u ∷ us) =
    ground (arith, eq_iff u.id id, eq_iff u.id probe, eq_iff id probe, find_user-keep id probe us)

-- Once `DeleteUser` has succeeded, the user is not found any more, has no link to an account and no
-- API key, and every other user is found as before.
pub delete_user_gone :
    (faults : UserFaults) (id : String) (db : UserDb)
    → (delete_user faults id db).1 ≡ ok tt
    → let db' = (delete_user faults id db).0 in
      ((probe : String)
        → get_user_by_id faults probe db' ≡ (
            if id == probe && not (faults select_user)
            then err user_not_found
            else get_user_by_id faults probe db))
      × All (λ l. (l.user_id == id) ≡ false) db'.links
      × All (λ k. (k.user_id == id) ≡ false) db'.keys
unfolding delete_user get_user_by_id
delete_user_gone faults id db done = elim (delete_user-cases faults id db) [
  | inl (e, same) ↦ ground arith
  | inr made ↦ rw made (
    (λ probe.
        ap (λ o. if faults select_user then err database else found_user o)
          (find_user-keep id probe db.users)
        ∙ ground arith),
    All-weaken (λ l. not (l.user_id == id) ≡ true) (λ l. (l.user_id == id) ≡ false)
        (keep (λ l. not (l.user_id == id)) db.links) (λ l h. ground arith)
        (keep-All (λ l. not (l.user_id == id)) db.links),
    All-weaken (λ k. not (k.user_id == id) ≡ true) (λ k. (k.user_id == id) ≡ false)
        (keep (λ k. not (k.user_id == id)) db.keys) (λ k h. ground arith)
        (keep-All (λ k. not (k.user_id == id)) db.keys),
  )
]

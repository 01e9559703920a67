-- ===== src/Users/Outcomes.antt =====
-- What the writes of a user come to: an error and no change, or the change.
use human_guard.Base.{
  String, ◌≡◌, refl, ◌⊎◌, inl, inr, true, false, not, ◌||◌, ◌∷◌, arith, Bool-cases, any_of, ◌&&◌,
  ◌==◌, keep,
}
use human_guard.Errors.{user_not_found, Error, ok, err, user_already_exists, database}
use human_guard.Clock.{Time}
use human_guard.Users.{
  User, UserDb, UserFaults, UserQuery, insert_user, map_users, has_user_id, is_role, prepared_user,
  clashes_user, create_user, update_user, update_row, update_user_query, written, delete_user,
  delete_user_query, update_row,
}

pub create_user-cases :
    (faults : UserFaults) (now : Time) (fresh : String) (user : User) (db : UserDb)
    → (let u = prepared_user now fresh user in
        ((e : Error) × (create_user faults now fresh user db ≡ (db, err e)))
        ⊎ ((create_user faults now fresh user db ≡ (record db { users = u ∷ db.users }, ok u))
            × (is_role u.role ≡ true)
            × (any_of (clashes_user u) db.users ≡ false)))
unfolding create_user
create_user-cases faults now fresh user db =
    let u = prepared_user now fresh user in
    elim (Bool-cases (faults insert_user || not (is_role u.role))) [
      | inl refused ↦ inl (database, rw refused refl)
      | inr fine ↦ elim (Bool-cases (any_of (clashes_user u) db.users)) [
        | inl clash ↦ inl (user_already_exists, rw (fine, clash) refl)
        | inr new ↦ inr (rw (fine, new) refl, ground arith, new)
      ]
    ]

-- The struct that is handed back is the row that was prepared.
pub create_user-prepared :
    (faults : UserFaults) (now : Time) (fresh : String) (user u : User) (db : UserDb)
    → (create_user faults now fresh user db).1 ≡ ok u
    → prepared_user now fresh user ≡ u
create_user-prepared faults now fresh user u db made =
    elim (create_user-cases faults now fresh user db) [
      | inl (e, same) ↦ ground arith
      | inr (done, _, _) ↦ ground arith
    ]

pub update_row-cases :
    (q : UserQuery) (faults : UserFaults) (id : String) (f : User → User) (db : UserDb)
    → ((e : Error) × (update_row q faults id f db ≡ (db, err e)))
      ⊎ (update_row q faults id f db ≡ (record db { users = map_users id f db.users }, ok tt))
update_row-cases q faults id f db = elim (Bool-cases (faults q)) [
  | inl refused ↦ inl (database, rw refused refl)
  | inr fine ↦ elim (Bool-cases (any_of (has_user_id id) db.users)) [
    | inl there ↦ inr (rw (fine, there) refl)
    | inr missing ↦ inl (user_not_found, rw (fine, missing) refl)
  ]
]

pub update_user-cases :
    (faults : UserFaults) (now : Time) (user : User) (db : UserDb)
    → ((e : Error) × (update_user faults now user db ≡ (db, err e)))
      ⊎ (update_user faults now user db
          ≡ (record db { users = map_users user.id (written now user) db.users }, ok tt))
unfolding update_user
update_user-cases faults now user db =
    elim (Bool-cases (any_of (has_user_id user.id) db.users && not (is_role user.role))) [
      | inl refused ↦ inl (database, rw refused refl)
      | inr fine ↦ elim (update_row-cases update_user_query faults user.id (written now user) db) [
        | inl (e, same) ↦ inl (e, rw fine same)
        | inr made ↦ inr (rw fine made)
      ]
    ]

-- The tables without a user.
abbrev pub deleted : String → UserDb → UserDb
deleted id db = record {
  users = keep (λ u. not (has_user_id id u)) db.users;
  links = keep (λ l. not (l.user_id == id)) db.links;
  keys = keep (λ k. not (k.user_id == id)) db.keys;
}

pub delete_user-cases :
    (faults : UserFaults) (id : String) (db : UserDb)
    → ((e : Error) × (delete_user faults id db ≡ (db, err e)))
      ⊎ (delete_user faults id db ≡ (deleted id db, ok tt))
unfolding delete_user
delete_user-cases faults id db = elim (Bool-cases (faults delete_user_query)) [
  | inl refused ↦ inl (database, rw refused refl)
  | inr fine ↦ elim (Bool-cases (any_of (has_user_id id) db.users)) [
    | inl there ↦ inr (rw (fine, there) refl)
    | inr missing ↦ inl (user_not_found, rw (fine, missing) refl)
  ]
]

-- ===== src/Users/Lookups.antt =====
-- backend/storage/user.go: what the lookups find after a write.
use human_guard.Base.{
  Char, lower_text, String, ◌≡◌, refl, sym, ap, ◌∙◌, ◌≢◌, inl, inr, true, false, Option, none, some,
  List, [], ◌∷◌, arith, ◌==◌, eq_iff, eq_refl, if◌then◌else◌, Bool-cases, any_of,
}
use human_guard.Errors.{ok, err, database}
use human_guard.Clock.{Time}
use human_guard.Users.{
  update_user_query, has_user_id, is_role, User, UserDb, UserFaults, find_user, find_email,
  map_users, found_user, create_user, prepared_user, get_user_by_id, get_user_by_email,
  check_email_exists, select_user, select_email, update_user, written,
}
use human_guard.Users.Outcomes.{create_user-cases, update_user-cases}

found_user-some : (o : Option User) (u : User) → found_user o ≡ ok u → o ≡ some u
found_user-some none u e = ground arith
found_user-some (some v) u e = ground arith

pub find_user-map_users :
    (id : String) (f : User → User) (us : List User) (u : User)
    → ((x : User) → (f x).id ≡ x.id)
    → find_user id us ≡ some u
    → find_user id (map_users id f us) ≡ some (f u)
unfolding find_user
find_user-map_users id f [] u same found = ground arith
find_user-map_users id f (x ∷ us) u same found = elim (Bool-cases (x.id == id)) [
  | inl here ↦
      let it : x ≡ u = ground arith in
      let known : ((f x).id == id) ≡ true = ap (λ i. i == id) (same x) ∙ here in
      rw here (rw known (ap (λ y. some (f y)) it))
  | inr other ↦ rw other (rw other (find_user-map_users id f us u same (ground arith)))
]

pub find_user-any_of :
    (id : String) (us : List User) (u : User)
    → find_user id us ≡ some u
    → any_of (has_user_id id) us ≡ true
unfolding find_user
find_user-any_of id [] u found = ground arith
find_user-any_of id (x ∷ us) u found = ground (arith, find_user-any_of id us u)

pub get_user_by_id-found :
    (faults : UserFaults) (id : String) (db : UserDb) (u : User)
    → get_user_by_id faults id db ≡ ok u
    → find_user id db.users ≡ some u
unfolding get_user_by_id
get_user_by_id-found faults id db u read = elim (Bool-cases (faults select_user)) [
  | inl refused ↦ ground arith
  | inr up ↦
      found_user-some (find_user id db.users) u
        (ap (λ b. if b then err database else found_user (find_user id db.users)) (sym up) ∙ read)
]

pub find_user-id : (id : String) (us : List User) (u : User) → find_user id us ≡ some u → u.id ≡ id
unfolding find_user
find_user-id id [] u found = ground arith
find_user-id id (x ∷ us) u found = ground (arith, eq_iff x.id id, find_user-id id us u)

pub update_user_ok :
    (faults : UserFaults) (now : Time) (u row : User) (db : UserDb)
    → find_user u.id db.users ≡ some row
    → is_role u.role ≡ true
    → faults update_user_query ≡ false
    → (update_user faults now u db).1 ≡ ok tt
unfolding update_user
update_user_ok faults now u row db found known up =
    let there = find_user-any_of u.id db.users row found in rw (there, known, up) refl

-- `UpdateUser` that succeeds has written the name, the role, the picture and the last login of the
-- struct into the row of its identifier, and left the email, the password, the TOTP secret and the
-- verification of the row, so that `GetUserByID` reads back just that.
pub get_user_by_id-update_user :
    (faults : UserFaults) (now : Time) (u row : User) (db : UserDb)
    → get_user_by_id faults u.id db ≡ ok row
    → (update_user faults now u db).1 ≡ ok tt
    → get_user_by_id faults u.id (update_user faults now u db).0 ≡ ok (written now u row)
unfolding get_user_by_id update_user
get_user_by_id-update_user faults now u row db read done =
    elim (update_user-cases faults now u db) [
      | inl (e, same) ↦ ground arith
      | inr made ↦ elim (Bool-cases (faults select_user)) [
        | inl refused ↦ ground arith
        | inr up ↦
            let found = get_user_by_id-found faults u.id db row read in
            rw (made, up)
              (ap found_user
                (find_user-map_users u.id (written now u) db.users row (λ x. refl) found))
      ]
    ]

-- A user who has just been registered is found under the email that was given exactly when that email
-- is in lower case. Otherwise the registration leaves what `GetUserByEmail` and `CheckEmailExists` say
-- of this email as it was, so the same email can be registered again under another identifier.
pub get_user_by_email-create_user :
    (table : Char → Char) (faults : UserFaults) (now : Time) (fresh : String) (user u : User)
    (db : UserDb)
    → faults select_email ≡ false
    → (create_user faults now fresh user db).1 ≡ ok u
    → let db' = (create_user faults now fresh user db).0 in
      (lower_text table user.email ≡ user.email
        → get_user_by_email table faults user.email db' ≡ ok u)
      × (lower_text table user.email ≢ user.email
          → (get_user_by_email table faults user.email db'
              ≡ get_user_by_email table faults user.email db)
            × (check_email_exists table faults user.email db'
                ≡ check_email_exists table faults user.email db))
unfolding get_user_by_email check_email_exists find_email
get_user_by_email-create_user table faults now fresh user u db up made =
    elim (create_user-cases faults now fresh user db) [
      | inl (e, same) ↦ ground arith
      | inr (done, _, _) ↦
          let it : prepared_user now fresh user ≡ u = ground arith in
          rw (done, up)
            (
              (λ low. rw (low, eq_refl user.email) (ap (λ x. ok x) it)),
              (λ mixed. (
                ground (arith, eq_iff user.email (lower_text table user.email)),
                ground (arith, eq_iff user.email (lower_text table user.email)),
              )),
            )
    ]

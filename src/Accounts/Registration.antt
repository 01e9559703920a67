-- ===== src/Accounts/Registration.antt =====
-- From the registration to the login.
use human_guard.Base.{
  lower_text, byte_len, codes, String, ◌≡◌, refl, sym, ap, ◌∙◌, ◌≢◌, inl, inr, true, false, ◌||◌,
  none, some, List, [], ◌∷◌, arith, ◌==◌, ltb, Bool-cases, Option-cases, any_of, ◌⊎◌, eq_iff,
}
use human_guard.Errors.{user_not_found, Error, Result-cases, ok, err}
use human_guard.Clock.{Time}
use human_guard.Http.{parsed, Request}
use human_guard.Users.{
  User, UserDb, find_email, create_user, get_user_by_email, check_email_exists, select_email,
  exists_email,
}
use human_guard.Users.Lookups.{get_user_by_email-create_user}
use human_guard.Users.Outcomes.{create_user-prepared}
use human_guard.Accounts.{Portal, PortalEnv, show_user}
use human_guard.Accounts.Register.{
  CreateUserBody, Registered, register, store_user, registered_user, email_taken,
}
use human_guard.Accounts.Login.{LoginBody, login, login_error, admit, totp_passes}
use human_guard.Accounts.Credentials.{login-Knows}
use human_guard.Accounts.Journey.{later_env}
use human_guard.Reply.{json}

-- What a registration that answers 201 has done.
record IsMade (env : PortalEnv) (b : CreateUserBody) (p : Portal) (rep : Registered) : Type 0 where
  hash : String
  secret : String
  user : User
  hashed : env.hash_password b.password ≡ some hash
  email_given : (b.email == "") ≡ false
  password_given : (b.password == "") ≡ false
  free : email_taken env b.email p.db ≡ false
  created :
      (create_user env.faults env.now env.new_user_id (registered_user b hash secret) p.db).1
      ≡ ok user
  stored : (register env b p).0 ≡ record p {
    db = (create_user env.faults env.now env.new_user_id (registered_user b hash secret) p.db).0;
  }
  shown : rep.user ≡ show_user user
  told : rep.totp_secret ≡ secret

store_user-IsMade :
    (env : PortalEnv) (b : CreateUserBody) (p : Portal) (hash secret : String) (rep : Registered)
    → (store_user env b hash secret p).1 ≡ json 201 rep
    → (user : User) × ((create_user env.faults env.now env.new_user_id
          (registered_user b hash secret)
          p.db).1
        ≡ ok user)
      × (rep.totp_secret ≡ secret)
      × (rep.user ≡ show_user user)
      × ((store_user env b hash secret p).0 ≡ record p {
        db =
            (create_user env.faults env.now env.new_user_id (registered_user b hash secret) p.db).0;
      })
unfolding store_user
store_user-IsMade env b p hash secret rep done =
    let made =
      create_user env.faults env.now env.new_user_id (registered_user b hash secret) p.db in
    elim (Result-cases made.1) [
      | inl (e, failing) ↦ ground arith
      | inr (user, good) ↦ (user, good, ground arith, ground arith, rw (store_user, good) refl)
    ]

register-IsMade :
    (env : PortalEnv) (b : CreateUserBody) (p : Portal) (rep : Registered)
    → (register env b p).1 ≡ json 201 rep
    → IsMade env b p rep
unfolding register
register-IsMade env b p rep done = elim (Bool-cases (b.email == "" || b.password == "")) [
  | inl lacking ↦ ground arith
  | inr given ↦ elim (Bool-cases (ltb (byte_len (codes b.password)) 8)) [
    | inl short ↦ ground arith
    | inr long ↦ elim (Bool-cases (email_taken env b.email p.db)) [
      | inl taken ↦ ground arith
      | inr free ↦ elim (Option-cases (env.hash_password b.password)) [
        | inl unhashed ↦ ground arith
        | inr (hash, hashed) ↦ elim (Option-cases env.secret) [
          | inl unlucky ↦ ground arith
          | inr (secret, drawn) ↦
              let same : register env b p ≡ store_user env b hash secret p =
                simp (given, long, free, hashed, drawn) in
              let (user, created, told, shown, stored) =
                store_user-IsMade env b p hash secret rep (sym (ap (λ x. x.1) same) ∙ done) in
              record {
                hash = hash;
                secret = secret;
                user = user;
                hashed = hashed;
                email_given = ground arith;
                password_given = ground arith;
                free = free;
                created = created;
                stored = ap (λ x. x.0) same ∙ stored;
                shown = shown;
                told = told;
              }
        ]
      ]
    ]
  ]
]

-- A hash is matched by the password that it was made of.
abbrev pub MatchesHashes : PortalEnv → Type 0
MatchesHashes env =
    (password hash : String)
    → env.hash_password password ≡ some hash
    → env.matches hash password ≡ true

find_email-none :
    (email : String) (us : List User)
    → any_of (λ u. u.email == email) us ≡ false
    → find_email email us ≡ none
unfolding find_email
find_email-none email [] absent = refl
find_email-none email (u ∷ us) absent = ground (arith, find_email-none email us)

unregistered :
    (env : PortalEnv) (email : String) (db : UserDb)
    → env.faults select_email ≡ false
    → env.faults exists_email ≡ false
    → email_taken env email db ≡ false
    → get_user_by_email env.table env.faults email db ≡ err user_not_found
unfolding get_user_by_email check_email_exists
unregistered env email db up up' free =
    let none_there : any_of (λ u. u.email == lower_text env.table email) db.users ≡ false =
      ground arith in
    rw (up, find_email-none (lower_text env.table email) db.users none_there) refl

login_unknown :
    (env : PortalEnv) (r : Request) (c : LoginBody) (p : Portal) (e : Error)
    → get_user_by_email env.table env.faults c.email p.db ≡ err e
    → login env r (parsed c) p ≡ login_error p
unfolding login
login_unknown env r c p e unknown = elim (Bool-cases (c.email == "" || c.password == "")) [
  | inl lacking ↦ rw lacking refl
  | inr given ↦ rw (given, unknown) refl
]

-- A registration that answers 201 with an email in lower case can be followed by a login with the same
-- email and password and a code of the secret that was handed out, and is admitted as the user that was
-- handed out. With any other email this login is refused: the row stands under the email as it was
-- given, and logins look for it in lower case. The database answers the two queries for an email.
pub login-register :
    (env : PortalEnv) (r : Request) (b : CreateUserBody) (c : LoginBody) (p : Portal)
    (rep : Registered) (later : Time) (fresh : String)
    → MatchesHashes env
    → env.faults select_email ≡ false
    → env.faults exists_email ≡ false
    → (register env b p).1 ≡ json 201 rep
    → c.email ≡ b.email
    → c.password ≡ b.password
    → totp_passes (later_env later fresh env) (some rep.totp_secret) c.totp_code ≡ some true
    → let q = (register env b p).0 in
      ((lower_text env.table b.email ≡ b.email)
        × ((user : User) × (rep.user ≡ show_user user)
            × (login (later_env later fresh env) r (parsed c) q
                ≡ admit (later_env later fresh env) r user q)))
      ⊎ ((lower_text env.table b.email ≢ b.email)
          × (login (later_env later fresh env) r (parsed c) q ≡ login_error q))
login-register env r b c p rep later fresh law up up' done email password code =
    let made = register-IsMade env b p rep done in
    let q = (register env b p).0 in
    let given = registered_user b made.hash made.secret in
    let row =
      sym (
        create_user-prepared env.faults env.now env.new_user_id given made.user p.db
          made.created) in
    let (low, mixed) =
      get_user_by_email-create_user env.table env.faults env.now env.new_user_id given made.user
        p.db up made.created in
    let read : get_user_by_email env.table env.faults c.email q.db
        ≡ get_user_by_email env.table env.faults b.email
            (create_user env.faults env.now env.new_user_id given p.db).0 =
      (λ i. get_user_by_email env.table env.faults (email i) (made.stored i).db) in
    elim (Bool-cases (lower_text env.table b.email == b.email)) [
      | inl same ↦
          let lower = (eq_iff (lower_text env.table b.email) b.email).0 same in
          inl (
            lower,
            (
              made.user,
              made.shown,
              login-Knows (later_env later fresh env) r c q made.user (record {
                email_given = ap (λ x. x == "") email ∙ made.email_given;
                password_given = ap (λ x. x == "") password ∙ made.password_given;
                named = read ∙ low lower;
                password =
                    (λ i. env.matches (row i).password_hash (password i))
                    ∙ law b.password made.hash made.hashed;
                code =
                    (λ i. totp_passes (later_env later fresh env) (row i).totp_secret c.totp_code)
                    ∙ ap (λ x. totp_passes (later_env later fresh env) (some x) c.totp_code)
                        (sym made.told)
                    ∙ code;
              }),
            ),
          )
      | inr other ↦
          let upper : lower_text env.table b.email ≢ b.email =
            ground (arith, eq_iff (lower_text env.table b.email) b.email) in
          inr (
            upper,
            login_unknown (later_env later fresh env) r c q user_not_found
                (read ∙ (mixed upper).0 ∙ unregistered env b.email p.db up up' made.free),
          )
    ]

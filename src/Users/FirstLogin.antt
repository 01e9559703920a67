-- ===== src/Users/FirstLogin.antt =====
-- backend/storage/user.go, `GetOrCreateUserByOAuth`: an account at a provider leads to one user.
use mathlib.Core.Path.{subst}
use human_guard.Base.{
  Char, lower_text, Pairwise, All-weaken, String, ◌≡◌, refl, sym, ap, ◌∙◌, ◌≢◌, inl, inr, true,
  false, none, some, List, [], ◌∷◌, arith, ◌==◌, eq_iff, eq_refl, Bool-cases, Option-cases, any_of,
  All,
}
use human_guard.Errors.{Error, Result, ok, err}
use human_guard.Clock.{Time}
use human_guard.Users.{
  User, UserOauth, UserDb, UserFaults, has_user_id, find_user, find_email, create_user,
  prepared_user, get_user_by_email, select_link, insert_link,
}
use human_guard.Users.Links.{
  is_link, find_link, add_user_oauth, OauthUserInfo, Drawn, get_or_create_user_by_oauth,
  new_oauth_user, get_user_by_oauth, add_new, match_email, match_link,
}
use human_guard.Users.Lookups.{find_user-any_of}
use human_guard.Users.Outcomes.{create_user-cases}
use human_guard.Users.Constraints.{Differs, IsOwned, IsSound}

any_of-find_user :
    (id : String) (us : List User)
    → any_of (has_user_id id) us ≡ true
    → (u : User) × (find_user id us ≡ some u)
unfolding find_user
any_of-find_user id [] there = ground arith
any_of-find_user id (u ∷ us) there = elim (Bool-cases (u.id == id)) [
  | inl here ↦ (u, rw here refl)
  | inr other ↦ let (v, found) = any_of-find_user id us (ground arith) in (v, rw other found)
]

-- In a table with unique identifiers, what is found under an email is found under its identifier.
email_missing_id :
    (email id : String) (us : List User) (u : User)
    → All (λ x. x.id ≢ id) us
    → find_email email us ≡ some u
    → u.id ≢ id
unfolding find_email
email_missing_id email id [] u other found = ground arith
email_missing_id email id (x ∷ us) u other found =
    ground (arith, email_missing_id email id us u other.1)

pub find_user-find_email :
    (email : String) (us : List User) (u : User)
    → Pairwise Differs us
    → find_email email us ≡ some u
    → find_user u.id us ≡ some u
unfolding find_user find_email
find_user-find_email email [] u d found = ground arith
find_user-find_email email (x ∷ us) u d found = elim (Bool-cases (x.email == email)) [
  | inl here ↦ ground (arith, eq_refl x.id)
  | inr other ↦
      let later : find_email email us ≡ some u = ground arith in
      let apart =
        email_missing_id email x.id us u
          (All-weaken (Differs x) (λ y. y.id ≢ x.id) us (λ y h. h.0) d.0) later in
      ground (arith, eq_iff x.id u.id, find_user-find_email email us u d.1 later)
]

IsOwned-link :
    (provider oauth_id : String) (us : List User) (ls : List UserOauth) (l : UserOauth)
    → All (IsOwned us) ls
    → find_link provider oauth_id ls ≡ some l
    → IsOwned us l
unfolding find_link
IsOwned-link provider oauth_id us [] l h found = ground arith
IsOwned-link provider oauth_id us (x ∷ ls) l h found =
    elim (Bool-cases (is_link provider oauth_id x)) [
      | inl here ↦ let same : x ≡ l = ground arith in subst (IsOwned us) same h.0
      | inr other ↦ IsOwned-link provider oauth_id us ls l h.1 (ground arith)
    ]

no_link :
    (provider oauth_id : String) (ls : List UserOauth)
    → find_link provider oauth_id ls ≡ none
    → any_of (is_link provider oauth_id) ls ≡ false
unfolding find_link
no_link provider oauth_id [] none_found = refl
no_link provider oauth_id (x ∷ ls) none_found = ground (arith, no_link provider oauth_id ls)

module _ (faults : UserFaults) (provider : String) (select_up : faults select_link ≡ false)
    (insert_up : faults insert_link ≡ false) where
  -- In a sound table, an account that leads to no user has no link.
  unlinked :
      (oauth_id : String) (db : UserDb) (e : Error)
      → IsSound db
      → get_user_by_oauth faults provider oauth_id db ≡ err e
      → any_of (is_link provider oauth_id) db.links ≡ false
  unfolding get_user_by_oauth
  unlinked oauth_id db e s missing = elim (Option-cases (find_link provider oauth_id db.links)) [
    | inl absent ↦ no_link provider oauth_id db.links absent
    | inr (l, there) ↦
        let (u, found) =
          any_of-find_user l.user_id db.users
            (IsOwned-link provider oauth_id db.users db.links l s.owned there) in
        let leads : get_user_by_oauth faults provider oauth_id db ≡ ok u =
          rw (select_up, there, found) refl in
        ground arith
  ]

  -- A link that is new leads to its user from then on.
  get_user_by_oauth-add_user_oauth :
      (now : Time) (fresh oauth_id : String) (db : UserDb) (u : User)
      → find_user u.id db.users ≡ some u
      → any_of (is_link provider oauth_id) db.links ≡ false
      → any_of (λ l. l.id == fresh) db.links ≡ false
      → get_user_by_oauth faults provider oauth_id
          (add_user_oauth faults now fresh u.id provider oauth_id db).0
        ≡ ok u
  unfolding get_user_by_oauth add_user_oauth find_link
  get_user_by_oauth-add_user_oauth now fresh oauth_id db u found new unused =
      rw
        (
          insert_up,
          new,
          unused,
          find_user-any_of u.id db.users u found,
          select_up,
          eq_refl provider,
          eq_refl oauth_id,
          found,
        )
        refl

  module _ (table : Char → Char) (now : Time) (drawn : Drawn) (info : OauthUserInfo) where
    -- What a call that ends with a user leaves: the account leads to that user.
    abbrev Leads : String → UserDb × Result User → Type 0
    Leads oauth_id r =
        (u : User) → r.1 ≡ ok u → get_user_by_oauth faults provider oauth_id r.0 ≡ ok u

    link-Leads :
        (db : UserDb) (u : User)
        → find_user u.id db.users ≡ some u
        → any_of (is_link provider info.id) db.links ≡ false
        → any_of (λ l. l.id == drawn.link_id) db.links ≡ false
        → Leads info.id ((add_user_oauth faults now drawn.link_id u.id provider info.id db).0, ok u)
    link-Leads db u found new unused v same =
        let leads =
          get_user_by_oauth-add_user_oauth now drawn.link_id info.id db u found new unused in
        ground arith

    created-Leads :
        (db : UserDb)
        → any_of (is_link provider info.id) db.links ≡ false
        → any_of (λ l. l.id == drawn.link_id) db.links ≡ false
        → Leads info.id (
            add_new faults now drawn provider info
              (create_user faults now drawn.user_id (new_oauth_user info.email info.name) db))
    unfolding find_user
    created-Leads db new unused =
        let user = new_oauth_user info.email info.name in
        let u = prepared_user now drawn.user_id user in
        elim (create_user-cases faults now drawn.user_id user db) [
          | inl (e, same) ↦ rw same (λ v impossible. ground arith)
          | inr (made, _, _) ↦ rw made (
              link-Leads (record db { users = u ∷ db.users }) u (rw (eq_refl u.id) refl) new unused)
        ]

    matched-Leads :
        (db : UserDb) (r : Result User)
        → ((u : User) → r ≡ ok u → find_user u.id db.users ≡ some u)
        → any_of (is_link provider info.id) db.links ≡ false
        → any_of (λ l. l.id == drawn.link_id) db.links ≡ false
        → Leads info.id (match_email faults now drawn provider info r db)
    matched-Leads db (ok u) found new unused = link-Leads db u (found u refl) new unused
    matched-Leads db (err e) found new unused = created-Leads db new unused

    email_found :
        (db : UserDb) (u : User)
        → IsSound db
        → get_user_by_email table faults info.email db ≡ ok u
        → find_user u.id db.users ≡ some u
    unfolding get_user_by_email
    email_found db u s got =
        elim (Option-cases (find_email (lower_text table info.email) db.users)) [
          | inl missing ↦ ground arith
          | inr (v, found) ↦
              let known =
                find_user-find_email (lower_text table info.email) db.users v s.distinct found in
              let same : v ≡ u = ground arith in
              subst (λ (x : User). find_user x.id db.users ≡ some x) same known
        ]

    signed_in-Leads :
        (db : UserDb) (r : Result User)
        → IsSound db
        → get_user_by_oauth faults provider info.id db ≡ r
        → any_of (λ l. l.id == drawn.link_id) db.links ≡ false
        → Leads info.id (match_link table faults now drawn provider info r db)
    signed_in-Leads db (ok u) s same unused = λ v e. same ∙ e
    signed_in-Leads db (err e) s same unused =
        matched-Leads db (get_user_by_email table faults info.email db) (λ u. email_found db u s)
          (unlinked info.id db e s same) unused

-- A sign-in through a provider that ends with a user has linked the account: every later sign-in with
-- the same account, whatever email and name the provider then reports, ends with the same user and
-- changes nothing. The tables are sound before, the link's identifier is fresh, and the database
-- answers about links.
pub get_or_create_user_by_oauth_again :
    (table : Char → Char) (faults : UserFaults) (now later : Time) (drawn drawn' : Drawn)
    (provider : String) (info info' : OauthUserInfo) (db db' : UserDb) (u : User)
    → IsSound db
    → faults select_link ≡ false
    → faults insert_link ≡ false
    → any_of (λ l. l.id == drawn.link_id) db.links ≡ false
    → info'.id ≡ info.id
    → get_or_create_user_by_oauth table faults now drawn provider info db ≡ (db', ok u)
    → get_or_create_user_by_oauth table faults later drawn' provider info' db' ≡ (db', ok u)
unfolding get_or_create_user_by_oauth
get_or_create_user_by_oauth_again table faults now later drawn drawn' provider info info' db db' u s
      up up' unused account first =
    let leads =
      signed_in-Leads faults provider up up' table now drawn info db
        (get_user_by_oauth faults provider info.id db) s refl unused u (ap (λ x. x.1) first) in
    let again : get_user_by_oauth faults provider info'.id db' ≡ ok u =
      ap (λ i. get_user_by_oauth faults provider i db') account
      ∙ sym (ap (λ x. get_user_by_oauth faults provider info.id x.0) first)
      ∙ leads in
    rw again refl

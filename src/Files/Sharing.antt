-- ===== src/Files/Sharing.antt =====
-- backend/handlers/file.go with backend/storage/share.go: what a link gives, and for how long.
use human_guard.Reply.{http_error, json}
use human_guard.Http.{parsed}
use human_guard.Auth.{Identity}
use human_guard.Files.Uploads.{FileState, FileEnv}
use human_guard.Base.{
  pos, ℕ, ◌+◌, ◌*◌, ◌≤◌, ◌<◌, String, ◌≡◌, refl, ◌⊎◌, inl, inr, true, false, not, ◌||◌, none, some,
  List, [], ◌∷◌, arith, ◌==◌, ltb, leb, Bool-cases, Option-cases, any_of, sym, ap, ◌∙◌, eq_refl,
  if◌then◌else◌,
}
use human_guard.Clock.{Time, hour, second}
use human_guard.Errors.{Result-cases, ok}
use human_guard.Files.{
  get_file_by_share_token, select_shared, FileRecord, ShareRecord, FileDb, FileFaults,
  clashes_share, is_file, is_open, epoch, shared_file, find_file, get_file, create_share,
  insert_share,
}
use human_guard.Files.Access.{
  share_reply, owned_file, share_file, new_share, send, get_by_share_token, ShareBody,
  serve_create_share, share_expiry,
}

-- A link for a positive number of hours up to 2562047 (292 years) is open exactly until they are over. From
-- there on, up to 3000000, the product no longer fits 63 bits of nanoseconds and is read as negative:
-- the expiry lies before 1970, which the query takes for a link without an end, so the link is open
-- at every instant. The link is made between 1970 and 2200.
pub is_open-share_expiry :
    (now later : Time) (n : ℕ)
    → 0 < n
    → n ≤ 3_000_000
    → epoch ≤ now
    → now ≤ 69_393_715_200 * second
    → ((n ≤ 2_562_047) × (is_open later (share_expiry now (pos n)) ≡ ltb later (now + n * hour)))
      ⊎ ((2_562_047 < n) × (is_open later (share_expiry now (pos n)) ≡ true))
is_open-share_expiry now later n positive bounded young old = elim (Bool-cases (leb n 2_562_047)) [
  | inl small ↦ inl (ground arith, ground arith)
  | inr large ↦ inr (ground arith, ground arith)
]

-- A token that no link has opens no file.
shared_file-none :
    (s : ShareRecord) (now : Time) (shares : List ShareRecord) (files : List FileRecord)
    → any_of (clashes_share s) shares ≡ false
    → shared_file now s.token shares files ≡ none
unfolding shared_file
shared_file-none s now [] files free = refl
shared_file-none s now (t ∷ ts) files free =
    let rest = shared_file-none s now ts files (ground arith) in
    let other : (t.token == s.token) ≡ false = ground arith in rw (shared_file, other, rest) refl

-- The newest link decides for its token.
shared_file-first :
    (now : Time) (s : ShareRecord) (shares : List ShareRecord) (files : List FileRecord)
    (f : FileRecord)
    → any_of (clashes_share s) shares ≡ false
    → find_file s.file_id files ≡ some f
    → shared_file now s.token (s ∷ shares) files
      ≡ (if is_open now s.expires_at then some f else none)
unfolding shared_file
shared_file-first now s shares files f free there =
    let older = shared_file-none s now shares files free in
    elim (Bool-cases (is_open now s.expires_at)) [
      | inl still ↦ rw (shared_file, eq_refl s.token, still, there) refl
      | inr over ↦ rw (shared_file, eq_refl s.token, over, older) refl
    ]

create_share_made :
    (faults : FileFaults) (fresh : String) (s : ShareRecord) (db : FileDb) (token : String)
    → (create_share faults fresh s db).1 ≡ ok token
    → (token ≡ s.token)
      × (any_of (clashes_share (record s { id = fresh })) db.shares ≡ false)
      × ((create_share faults fresh s db).0
          ≡ record db { shares = record s { id = fresh } ∷ db.shares })
unfolding create_share
create_share_made faults fresh s db token made =
    elim (Bool-cases (
      faults insert_share
      || any_of (clashes_share (record s { id = fresh })) db.shares
      || not (any_of (is_file s.file_id) db.files))) [
        | inl refused ↦ ground arith
        | inr up ↦ ground arith
      ]

get_file_found :
    (faults : FileFaults) (id : String) (db : FileDb) (f : FileRecord)
    → get_file faults id db ≡ ok f
    → find_file id db.files ≡ some f
unfolding get_file
get_file_found faults id db f found = elim (Option-cases (find_file id db.files)) [
  | inl missing ↦ ground arith
  | inr (g, there) ↦ ground arith
]

module _ {S : Type 0} where
  -- The request at a later instant.
  abbrev pub at_instant : Time → FileEnv S → FileEnv S
  at_instant later env = record env { now = later }

  abbrev pub made_share : FileEnv S → Identity → ShareBody → String → ShareRecord
  made_share env who b token = record (new_share env.now who.user_id token b) {
    id = env.new_share_id;
  }

  abbrev pub with_share : FileState S → ShareRecord → FileState S
  with_share p s = record p { db = record (p.db) { shares = s ∷ p.db.shares } }

  share_file_made :
      (env : FileEnv S) (who : Identity) (b : ShareBody) (p : FileState S) (token : String)
      → (share_file env who b p).1 ≡ json 200 token
      → (any_of (clashes_share (made_share env who b token)) p.db.shares ≡ false)
        × ((share_file env who b p).0 ≡ with_share p (made_share env who b token))
  unfolding share_file
  share_file_made env who b p token made = elim (Option-cases env.token) [
    | inl broken ↦ ground arith
    | inr (drawn, there) ↦
        let s = new_share env.now who.user_id drawn b in
        elim (Result-cases (create_share env.faults env.new_share_id s p.db).1) [
          | inl (e, refused) ↦ ground arith
          | inr (told, done) ↦
              let (_, free, stored) =
                create_share_made env.faults env.new_share_id s p.db told done in
              let same : drawn ≡ token = ground arith in
              (rw (sym same) free, rw (share_file, there, share_reply, done, stored, same) refl)
        ]
  ]

  serve_create_share_made :
      (env : FileEnv S) (who : Identity) (b : ShareBody) (p : FileState S) (token : String)
      (f : FileRecord)
      → get_file env.faults b.file_id p.db ≡ ok f
      → (serve_create_share env who (parsed b) p).1 ≡ json 200 token
      → (any_of (clashes_share (made_share env who b token)) p.db.shares ≡ false)
        × ((serve_create_share env who (parsed b) p).0 ≡ with_share p (made_share env who b token))
  unfolding serve_create_share
  serve_create_share_made env who b p token f found made = elim (Bool-cases (who.user_id == "")) [
    | inl absent ↦ ground arith
    | inr given ↦ elim (Bool-cases (f.user_id == who.user_id)) [
      | inr other ↦ ground arith
      | inl own ↦
          let step : serve_create_share env who (parsed b) p ≡ share_file env who b p =
            rw (serve_create_share, given, owned_file, found, own) refl in
          rw step (share_file_made env who b p token (sym (ap (λ x. x.1) step) ∙ made))
    ]
  ]

  get_by_share_token-with_share :
      (env : FileEnv S) (s : ShareRecord) (p : FileState S) (f : FileRecord)
      → any_of (clashes_share s) p.db.shares ≡ false
      → find_file s.file_id p.db.files ≡ some f
      → env.faults select_shared ≡ false
      → get_by_share_token env s.token (with_share p s) ≡ (
          if is_open env.now s.expires_at
          then send env f p.objects
          else http_error 404 "not found or expired")
  unfolding get_by_share_token get_file_by_share_token
  get_by_share_token-with_share env s p f free there up =
      let opened = shared_file-first env.now s p.db.shares p.db.files f free there in
      elim (Bool-cases (is_open env.now s.expires_at)) [
        | inl still ↦ rw (get_by_share_token, get_file_by_share_token, up, opened, still) refl
        | inr over ↦ rw (get_by_share_token, get_file_by_share_token, up, opened, over) refl
      ]

  -- A link that has been handed out (the answer 200 with its token) gives the file of the request to
  -- everyone who has the token while the link is open, as the object store holds it then, and 404
  -- afterwards. The file stands under its identifier, and the database answers the query for a link.
  pub get_by_share_token-serve_create_share :
      (env : FileEnv S) (who : Identity) (b : ShareBody) (p : FileState S) (token : String)
      (f : FileRecord) (later : Time)
      → get_file env.faults b.file_id p.db ≡ ok f
      → env.faults select_shared ≡ false
      → (serve_create_share env who (parsed b) p).1 ≡ json 200 token
      → get_by_share_token (at_instant later env) token (serve_create_share env who (parsed b) p).0
        ≡ (if is_open later (share_expiry env.now b.expires_in_hours)
            then send env f p.objects
            else http_error 404 "not found or expired")
  get_by_share_token-serve_create_share env who b p token f later found up made =
      let (free, stored) = serve_create_share_made env who b p token f found made in
      let there = get_file_found env.faults b.file_id p.db f found in
      rw stored (
        get_by_share_token-with_share (at_instant later env) (made_share env who b token) p f free
          there up)

-- ===== src/KeyApi/Creation.antt =====
-- backend/handlers/api_keys.go, `CreateAPIKey`: the new key opens the API.
use human_guard.Users.{select_user, find_user, User}
use human_guard.Http.{header, Request, parsed}
use Prim.Native.String.{◌++◌ as concat}
use Prim.Native.String.append
use Prim.Native.Char.{code}
use mathlib.Core.Path.{subst}
use human_guard.Base.{
  ◌++◌, ℤ, pos, negsuc, positive_part, codes, has_prefix, ℕ, ◌+◌, ◌*◌, ◌≤◌, ◌<◌, String, ◌≡◌, refl,
  ap, ◌∙◌, inl, inr, true, false, none, some, List, [], ◌∷◌, arith, ◌==◌, eq_iff, Bool-cases,
  Option-cases, any_of, byte_len, sym, not, eq_refl,
}
use human_guard.Clock.{Time, hour}
use human_guard.ApiKeys.{
  has_hash, ApiKey, select_key, find_key, create_api_key, stamped_key, clashes_key, insert_key,
}
use human_guard.Auth.{passed, authenticate, has_expired, Identity, api_key_prefix}
use human_guard.Accounts.Journey.{later_env}
use human_guard.Auth.Keys.{IsGood, authenticate_good_key}
use human_guard.ApiKeys.{stamped_key}
use human_guard.Accounts.{auth_state, auth_env, Portal, PortalEnv}
use human_guard.KeyApi.{
  serve_create_api_key, CreateApiKeyRequest, ApiKeyResponse, KeyDraw, bad_days, expires_at_of,
  new_key, store_key,
}
use human_guard.Reply.{json}

codes-concat : (s t : String) → codes (concat s t) ≡ codes s ++ codes t
codes-concat String.[] t = ap codes (append.nil t)
codes-concat (String.◌∷◌ c s) t =
    ap codes (append.cons c s t) ∙ ap (λ l. code c ∷ l) (codes-concat s t)

has_prefix-append : (xs ys : List ℕ) → has_prefix (xs ++ ys) xs ≡ true
has_prefix-append [] [] = refl
has_prefix-append [] (y ∷ ys) = refl
has_prefix-append (x ∷ xs) ys = ground (arith, has_prefix-append xs ys)

prefixed :
    (hex : String) → has_prefix (codes (concat api_key_prefix hex)) (codes api_key_prefix) ≡ true
prefixed hex =
    rw (codes-concat api_key_prefix hex) (has_prefix-append (codes api_key_prefix) (codes hex))

not_empty : (s : String) → has_prefix (codes s) (codes api_key_prefix) ≡ true → (s == "") ≡ false
not_empty s h = elim (Bool-cases (s == "")) [
  | inl same ↦
      let bad : has_prefix [] (codes api_key_prefix) ≡ true =
        ap (λ t. has_prefix (codes t) (codes api_key_prefix)) (sym ((eq_iff s "").0 same)) ∙ h in
      ground arith
  | inr other ↦ other
]

-- A number of days that `CreateAPIKey` accepts fits the clock: the key expires just so many days
-- ahead.
pub expires_at_of-bad_days :
    (now : Time) (n : ℤ)
    → bad_days (some n) ≡ none
    → (0 < positive_part n)
      × (positive_part n ≤ 36500)
      × (expires_at_of now (some n) ≡ some (now + positive_part n * (24 * hour)))
unfolding bad_days
expires_at_of-bad_days now (pos n) accepted = ground arith
expires_at_of-bad_days now (negsuc n) accepted = ground arith

-- What a creation that answers 201 has done.
record IsMade (env : PortalEnv) (draw : KeyDraw) (who : Identity) (b : CreateApiKeyRequest)
    (p : Portal) (rep : ApiKeyResponse) (q : Portal) : Type 0 where
  hex : String
  told : concat api_key_prefix hex ≡ rep.key
  stored :
      q.db.keys
      ≡ record (stamped_key env.now draw.id (new_key env who b (concat api_key_prefix hex))) {
        revoked = false;
        last_used_at = none;
      }
        ∷ p.db.keys
  users_kept : q.db.users ≡ p.db.users

store_key-IsMade :
    (env : PortalEnv) (draw : KeyDraw) (who : Identity) (b : CreateApiKeyRequest) (p : Portal)
    (rep : ApiKeyResponse)
    → (store_key env draw who b p).1 ≡ json 201 rep
    → IsMade env draw who b p rep (store_key env draw who b p).0
unfolding store_key create_api_key
store_key-IsMade env draw who b p rep made = elim (Option-cases draw.hex) [
  | inl unlucky ↦ ground arith
  | inr (hex, drawn) ↦
      let k = new_key env who b (concat api_key_prefix hex) in
      elim (Bool-cases (env.key_faults insert_key)) [
        | inl refused ↦ ground arith
        | inr up ↦
            elim (Bool-cases (any_of (clashes_key (stamped_key env.now draw.id k)) p.db.keys)) [
              | inl clash ↦ ground arith
              | inr new ↦
                  let told : concat api_key_prefix hex ≡ rep.key = ground arith in
                  record {
                    hex = hex;
                    told = told;
                    stored = rw (drawn, store_key, create_api_key, up, new) refl;
                    users_kept = rw (drawn, store_key, create_api_key, up, new) refl;
                  }
            ]
      ]
]

serve_create_api_key-IsMade :
    (env : PortalEnv) (draw : KeyDraw) (who : Identity) (b : CreateApiKeyRequest) (p : Portal)
    (rep : ApiKeyResponse)
    → (serve_create_api_key env draw who (parsed b) p).1 ≡ json 201 rep
    → IsMade env draw who b p rep (serve_create_api_key env draw who (parsed b) p).0
unfolding serve_create_api_key
serve_create_api_key-IsMade env draw who b p rep made =
    elim (Bool-cases (not (who.api_key_id == ""))) [
      | inl keyed ↦ ground arith
      | inr plain ↦ elim (Bool-cases (who.user_id == "")) [
        | inl nobody ↦ ground arith
        | inr someone ↦ elim (Bool-cases (b.name == "")) [
          | inl unnamed ↦ ground arith
          | inr named ↦ elim (Option-cases (bad_days b.expires_in_days)) [
            | inr (message, bad) ↦ ground arith
            | inl good ↦
                let same : serve_create_api_key env draw who (parsed b) p
                    ≡ store_key env draw who b p =
                  rw (plain, someone, named, good) refl in
                subst (λ x. IsMade env draw who b p rep x.0) (sym same)
                  (store_key-IsMade env draw who b p rep (sym (ap (λ x. x.1) same) ∙ made))
          ]
        ]
      ]
    ]

-- A key that `CreateAPIKey` has handed out with status 201 opens the API for the user who asked for it: a
-- request with its text is passed on as this user, with the role the user has by then, as long as
-- the key has not expired. The user exists, the identifier of the row has eight bytes, and the database
-- answers.
pub authenticate-serve_create_api_key :
    (env : PortalEnv) (draw : KeyDraw) (who : Identity) (b : CreateApiKeyRequest) (p : Portal)
    (rep : ApiKeyResponse) (later : Time) (fresh : String) (r : Request) (user : User)
    → (serve_create_api_key env draw who (parsed b) p).1 ≡ json 201 rep
    → header "X-API-Key" r ≡ rep.key
    → find_user who.user_id p.db.users ≡ some user
    → has_expired later (new_key env who b rep.key) ≡ false
    → env.key_faults select_key ≡ false
    → env.faults select_user ≡ false
    → 8 ≤ byte_len (codes draw.id)
    → (authenticate
        (auth_env (later_env later fresh env))
        r
        (auth_state (serve_create_api_key env draw who (parsed b) p).0)).access
      ≡ passed
          (record { user_id = user.id; role = user.role; session_id = ""; api_key_id = draw.id })
unfolding find_key
authenticate-serve_create_api_key env draw who b p rep later fresh r user made sent there fresh_key
      up up' long =
    let m = serve_create_api_key-IsMade env draw who b p rep made in
    let q = (serve_create_api_key env draw who (parsed b) p).0 in
    let row : ApiKey =
      record (stamped_key env.now draw.id (new_key env who b (concat api_key_prefix m.hex))) {
        revoked = false;
        last_used_at = none;
      } in
    let text : header "X-API-Key" r ≡ concat api_key_prefix m.hex = sent ∙ sym m.told in
    let shape : has_prefix (codes (header "X-API-Key" r)) (codes api_key_prefix) ≡ true =
      ap (λ t. has_prefix (codes t) (codes api_key_prefix)) text ∙ prefixed m.hex in
    let good : IsGood (auth_env (later_env later fresh env)) (auth_state q) (header "X-API-Key" r)
        row user =
      (
        ap (find_key (has_hash (env.key_hash (header "X-API-Key" r)))) m.stored
            ∙ ap (λ t. find_key (has_hash (env.key_hash t)) (row ∷ p.db.keys)) text
            ∙ rw (find_key, eq_refl (env.key_hash (concat api_key_prefix m.hex))) refl,
        refl,
        fresh_key,
        ap (find_user who.user_id) m.users_kept ∙ there,
      ) in
    ap (λ x. x.access)
      (authenticate_good_key (auth_env (later_env later fresh env)) r (auth_state q) row user
        (not_empty (header "X-API-Key" r) shape) shape up up' good long)

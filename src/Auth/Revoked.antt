-- ===== src/Auth/Revoked.antt =====
-- What is left of an API key once it is revoked or deleted.
use human_guard.Base.{
  String, ◌≡◌, refl, ◌≢◌, inl, inr, Bool, true, false, not, none, some, List, [], ◌∷◌, arith, ◌==◌,
  eq_iff, Bool-cases, keep, any_of, All, ap, ◌∙◌, eq_refl,
}
use human_guard.ApiKeys.{
  ApiKey, KeyFaults, get_api_key_by_hash, find_key, has_hash, has_id, revoke, revoke_api_key,
  revoke_key, map_keys, delete_api_key, delete_key,
}
use human_guard.ApiKeys.Revocation.{AreUnique}
use human_guard.Http.{Request, header}
use human_guard.Auth.{
  AuthEnv, AuthState, check_key, validate_api_key, refuse, pass_key, authenticate,
}

find_key-revoke :
    (hash id : String) (ks : List ApiKey) (key : ApiKey)
    → find_key (has_hash hash) ks ≡ some key
    → key.id ≡ id
    → find_key (has_hash hash) (map_keys id revoke ks) ≡ some (revoke key)
unfolding find_key map_keys
find_key-revoke hash id [] key found named = ground arith
find_key-revoke hash id (k ∷ ks) key found named = elim (Bool-cases (k.key_hash == hash)) [
  | inl here ↦ ground (arith, eq_iff k.id id)
  | inr other ↦ ground (arith, find_key-revoke hash id ks key)
]

-- A row that is found is in the table, under the hash that was looked for.
find_key-hash :
    (hash : String) (ks : List ApiKey) (key : ApiKey)
    → find_key (has_hash hash) ks ≡ some key
    → key.key_hash ≡ hash
unfolding find_key
find_key-hash hash [] key found = ground arith
find_key-hash hash (k ∷ ks) key found =
    ground (arith, eq_iff k.key_hash hash, find_key-hash hash ks key)

find_key_other :
    (hash i h : String) (p : ApiKey → Bool) (ks : List ApiKey)
    → h ≡ hash
    → All (λ x. (x.id ≢ i) × (x.key_hash ≢ h)) ks
    → find_key (has_hash hash) (keep p ks) ≡ none
unfolding find_key
find_key_other hash i h p [] e a = refl
find_key_other hash i h p (k ∷ ks) e a =
    ground (arith, eq_iff k.key_hash hash, find_key_other hash i h p ks)

-- A row that a deletion drops is not found any more, as its hash is unique.
pub find_key-keep :
    (hash : String) (p : ApiKey → Bool) (ks : List ApiKey) (key : ApiKey)
    → AreUnique ks
    → find_key (has_hash hash) ks ≡ some key
    → p key ≡ false
    → find_key (has_hash hash) (keep p ks) ≡ none
unfolding find_key
find_key-keep hash p [] key u found dropped = refl
find_key-keep hash p (k ∷ ks) key u found dropped = elim (Bool-cases (k.key_hash == hash)) [
  | inl here ↦
      let gone =
        find_key_other hash k.id k.key_hash p ks (ground (arith, eq_iff k.key_hash hash)) u.0 in
      let same : k ≡ key = ground arith in rw (ap p same ∙ dropped) gone
  | inr other ↦ ground (arith, find_key-keep hash p ks key u.1)
]

any_of-find_key :
    (hash id : String) (ks : List ApiKey) (key : ApiKey)
    → find_key (has_hash hash) ks ≡ some key
    → key.id ≡ id
    → any_of (has_id id) ks ≡ true
unfolding find_key
any_of-find_key hash id [] key found named = ground arith
any_of-find_key hash id (k ∷ ks) key found named =
    ground (arith, eq_iff k.id id, any_of-find_key hash id ks key)

abbrev pub with_keys : AuthState → List ApiKey → AuthState
with_keys st ks = record st { keys = ks }

-- Once `RevokeAPIKey` or `DeleteAPIKey` has run for the identifier of a stored key, and the database
-- does not refuse the statement, every request that sends this key is refused with status 401 and
-- without a trace, whoever owns it and whatever else it sends.
pub authenticate-revoke_api_key :
    (env : AuthEnv) (faults : KeyFaults) (r : Request) (st : AuthState) (key : ApiKey)
    → AreUnique st.keys
    → (header "X-API-Key" r == "") ≡ false
    → find_key (has_hash (env.key_hash (header "X-API-Key" r))) st.keys ≡ some key
    → faults revoke_key ≡ false
    → faults delete_key ≡ false
    → (let st' = with_keys st (revoke_api_key faults key.id st.keys).0 in
        authenticate env r st' ≡ refuse st' "invalid api key")
      × (let st' = with_keys st (delete_api_key faults key.id st.keys).0 in
          authenticate env r st' ≡ refuse st' "invalid api key")
unfolding authenticate pass_key validate_api_key get_api_key_by_hash check_key revoke_api_key
    delete_api_key
authenticate-revoke_api_key env faults r st key u sent found up up' =
    let hash = env.key_hash (header "X-API-Key" r) in
    let there = any_of-find_key hash key.id st.keys key found refl in
    (
      ground (arith, find_key-revoke hash key.id st.keys key found refl, there),
      ground (
        arith,
        find_key-keep hash (λ k. not (has_id key.id k)) st.keys key u found
            (ground (arith, eq_refl key.id)),
        there,
      ),
    )

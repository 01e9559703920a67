-- ===== src/KeyApi/Management.antt =====
-- backend/handlers/api_keys.go: who makes, revokes and deletes keys.
use human_guard.Base.{
  byte_len, codes, String, ◌≡◌, refl, ap, ◌∙◌, ◌≢◌, ◌⊎◌, inl, inr, true, false, some, arith, ◌==◌,
  eq_iff, ltb, Bool-cases, Option-cases,
}
use human_guard.Errors.{Result-cases, ok}
use human_guard.Http.{Body, Request, header}
use human_guard.ApiKeys.{ApiKey, get_api_key_by_id, revoke_api_key, delete_api_key}
use human_guard.Auth.{
  AuthState, Identity, KeyCheck, rejected, orphaned, accepted, passed, pass_key, validate_api_key,
  authenticate,
}
use human_guard.Accounts.{Portal, PortalEnv, auth_env, auth_state}
use human_guard.KeyApi.{
  CreateApiKeyRequest, KeyDraw, serve_create_api_key, serve_revoke_api_key, serve_delete_api_key,
  on_own_key, on_found, may_touch, written_reply,
}
use human_guard.Reply.{Reply, json_error}

-- A key's identity names the key: the middleware panics on an identifier of fewer than eight bytes.
pass_key-named :
    (st : AuthState) (c : KeyCheck) (who : Identity)
    → (pass_key st c).access ≡ passed who
    → (who.api_key_id == "") ≡ false
unfolding pass_key
pass_key-named st (rejected message) who through = ground arith
pass_key-named st (orphaned id) who through = ground arith
pass_key-named st (accepted user id) who through = elim (Bool-cases (id == "")) [
  | inl same ↦
      let short : ltb (byte_len (codes id)) 8 ≡ true =
        ap (λ t. ltb (byte_len (codes t)) 8) ((eq_iff id "").0 same) in
      ground arith
  | inr other ↦ ground arith
]

authenticate-named :
    (env : PortalEnv) (r : Request) (p : Portal) (who : Identity)
    → (header "X-API-Key" r == "") ≡ false
    → (authenticate (auth_env env) r (auth_state p)).access ≡ passed who
    → (who.api_key_id == "") ≡ false
unfolding authenticate
authenticate-named env r p who sent through =
    pass_key-named (auth_state p)
      (validate_api_key (auth_env env) (header "X-API-Key" r) (auth_state p)) who (ground arith)

-- Whoever comes with an API key, and is let in by it, neither makes, nor revokes, nor deletes a key: each
-- of the three handlers answers 403 and changes nothing, an administrator's key included.
pub keys_manage_no_keys :
    (env env' : PortalEnv) (r : Request) (p q : Portal) (who : Identity) (draw : KeyDraw)
    (body : Body CreateApiKeyRequest) (id : String)
    → (header "X-API-Key" r == "") ≡ false
    → (authenticate (auth_env env) r (auth_state p)).access ≡ passed who
    → (serve_create_api_key env' draw who body q
        ≡ (q, json_error 403 "API keys cannot create new API keys. Use JWT authentication."))
      × (serve_revoke_api_key env' who id q
          ≡ (q, json_error 403 "API keys cannot revoke API keys. Use JWT authentication."))
      × (serve_delete_api_key env' who id q
          ≡ (q, json_error 403 "API keys cannot delete API keys. Use JWT authentication."))
unfolding serve_create_api_key serve_revoke_api_key serve_delete_api_key
keys_manage_no_keys env env' r p q who draw body id sent through =
    let named = authenticate-named env r p who sent through in rw named (refl, refl, refl)

-- The requester is a user without a key, and the key of the URL is the user's own, or the user is an
-- administrator.
abbrev pub MayTouch : PortalEnv → Identity → String → Portal → Type 0
MayTouch env who id p =
    (k : ApiKey) × (get_api_key_by_id env.key_faults id p.db.keys ≡ ok (some k))
    × (who.api_key_id ≡ "")
    × (who.user_id ≢ "")
    × ((k.user_id ≡ who.user_id) ⊎ (who.role ≡ "admin"))

owns :
    (who : Identity) (k : ApiKey)
    → may_touch who k ≡ true
    → (k.user_id ≡ who.user_id) ⊎ (who.role ≡ "admin")
owns who k may = elim (Bool-cases (k.user_id == who.user_id)) [
  | inl own ↦ inl ((eq_iff k.user_id who.user_id).0 own)
  | inr other ↦ inr (ground (arith, eq_iff who.role "admin"))
]

on_found-cases :
    (env : PortalEnv) (who : Identity) (id : String) (p : Portal) (next : Portal × Reply (Unit {0}))
    → ((on_found who (get_api_key_by_id env.key_faults id p.db.keys) p next).0 ≡ p)
      ⊎ ((k : ApiKey) × (get_api_key_by_id env.key_faults id p.db.keys ≡ ok (some k))
          × ((k.user_id ≡ who.user_id) ⊎ (who.role ≡ "admin")))
on_found-cases env who id p next =
    elim (Result-cases (get_api_key_by_id env.key_faults id p.db.keys)) [
      | inl (e, failing) ↦ inl (rw failing refl)
      | inr (o, read) ↦ elim (Option-cases o) [
        | inl absent ↦ inl (rw (read, absent) refl)
        | inr (k, there) ↦ elim (Bool-cases (may_touch who k)) [
          | inr barred ↦ inl (rw (read, there, barred) refl)
          | inl may ↦ inr (k, read ∙ ap (λ x. ok x) there, owns who k may)
        ]
      ]
    ]

on_own_key-cases :
    (env : PortalEnv) (message : String) (who : Identity) (id : String) (p : Portal)
    (next : Portal × Reply (Unit {0}))
    → ((on_own_key env message who id p next).0 ≡ p) ⊎ MayTouch env who id p
on_own_key-cases env message who id p next = elim (Bool-cases (who.api_key_id == "")) [
  | inr keyed ↦ inl (rw keyed refl)
  | inl plain ↦ elim (Bool-cases (id == "")) [
    | inl unnamed ↦ inl (rw (plain, unnamed) refl)
    | inr named ↦ elim (Bool-cases (who.user_id == "")) [
      | inl nobody ↦ inl (rw (plain, named, nobody) refl)
      | inr someone ↦ elim (on_found-cases env who id p next) [
        | inl same ↦ inl (rw (plain, named, someone) same)
        | inr (k, read, own) ↦ inr (
          k,
          read,
          (eq_iff who.api_key_id "").0 plain,
          (λ e. ground (arith, eq_iff who.user_id "")),
          own,
        )
      ]
    ]
  ]
]

-- A request to revoke or to delete a key changes nothing, unless the requester is signed in without a key,
-- the key is stored, and it belongs to the requester or the requester is an administrator.
pub keys_guarded :
    (env : PortalEnv) (who : Identity) (id : String) (p : Portal)
    → MayTouch env who id p
      ⊎ (((serve_revoke_api_key env who id p).0 ≡ p) × ((serve_delete_api_key env who id p).0 ≡ p))
unfolding serve_revoke_api_key serve_delete_api_key
keys_guarded env who id p =
    let revoking : String = "API keys cannot revoke API keys. Use JWT authentication." in
    let deleting : String = "API keys cannot delete API keys. Use JWT authentication." in
    elim (on_own_key-cases env revoking who id p
      (written_reply "failed to revoke key" p (revoke_api_key env.key_faults id p.db.keys))) [
        | inr may ↦ inl may
        | inl kept ↦
            elim (on_own_key-cases env deleting who id p (
              written_reply "failed to delete key" p
                (delete_api_key env.key_faults id p.db.keys))) [
                  | inr may ↦ inl may
                  | inl kept' ↦ inr (kept, kept')
                ]
      ]

-- ===== src/Accounts/Endings.antt =====
-- From the logout, or the forced end of a session, on.
use human_guard.Base.{
  lookup-delete, String, ◌≡◌, refl, sym, ap, ◌∙◌, inl, inr, false, none, some, List, arith, ◌==◌,
  eq_refl, Bool-cases, Option-cases, All, lookup, delete,
}
use human_guard.Http.{Request}
use human_guard.Clock.{Time, after}
use human_guard.UserSessions.{UserSessions, get_user_session, revoke_session}
use human_guard.UserSessions.Admin.{force_revoke_session}
use human_guard.UserSessions.Endings.{Event, draws, run, lookup-run}
use human_guard.Jwt.{validate_token}
use human_guard.Auth.{Identity, Claims, refused, authenticate}
use human_guard.Auth.Tokens.{token_of, IsBearer, authenticate_token}
use human_guard.Accounts.{Portal, PortalEnv, auth_state, auth_env}
use human_guard.Accounts.Login.{delete_found, logout}

bearer_refused :
    (env : PortalEnv) (r : Request) (p : Portal) (c : Claims)
    → IsBearer r
    → validate_token env.jwt env.now env.new_session_id (token_of r) ≡ some c
    → lookup c.session_id p.sessions ≡ none
    → (authenticate (auth_env env) r (auth_state p)).access
      ≡ refused 401 "session expired or invalid"
bearer_refused env r p c bearer valid missing =
    let (only, either) = authenticate_token (auth_env env) r (auth_state p) c bearer valid in
    elim either [
      | inl through ↦ let (s, there, early) = only.0 through in ground arith
      | inr out ↦ out
    ]

lookup-delete_self : (id : String) (m : UserSessions) → lookup id (delete id m) ≡ none
lookup-delete_self id m = lookup-delete id id m ∙ rw (eq_refl id) refl

-- What `Get` and `Delete` leave of a session.
lookup-delete_found :
    (now : Time) (id : String) (m : UserSessions)
    → lookup id (delete_found id (get_user_session now id m)) ≡ none
unfolding get_user_session revoke_session
lookup-delete_found now id m = elim (Option-cases (lookup id m)) [
  | inl absent ↦ rw (absent, get_user_session) absent
  | inr (s, there) ↦ elim (Bool-cases (after now s.expires_at)) [
    | inl late ↦ rw (there, get_user_session, late) (lookup-delete_self id m)
    | inr early ↦ rw (there, get_user_session, early) (lookup-delete_self id m)
  ]
]

lookup-logout :
    (env : PortalEnv) (who : Identity) (p : Portal)
    → (who.session_id == "") ≡ false
    → lookup who.session_id (logout env who p).0.sessions ≡ none
unfolding logout
lookup-logout env who p named = rw named (lookup-delete_found env.now who.session_id p.sessions)

lookup-force_revoke_session :
    (now : Time) (id : String) (m : UserSessions)
    → (id == "") ≡ false
    → lookup id (force_revoke_session now id m).0 ≡ none
unfolding force_revoke_session
lookup-force_revoke_session now id m named =
    let ended = lookup-delete_found now id m in
    elim (Option-cases (get_user_session now id m).1) [
      | inl gone ↦
          rw (force_revoke_session, named, gone)
            (ap (λ o. lookup id (delete_found id ((get_user_session now id m).0, o))) (sym gone)
              ∙ ended)
      | inr (s, found) ↦
          rw (force_revoke_session, named, found)
            (ap (λ o. lookup id (delete_found id ((get_user_session now id m).0, o))) (sym found)
              ∙ ended)
    ]

-- The portal after events of its sessions.
abbrev pub after_events : List Event → Portal → Portal
after_events events p = record p { sessions = run events p.sessions }

-- `Logout` ends the requester's session, and so does an administrator's revocation of it: whatever
-- logins, requests, revocations and sweeps follow, a request whose valid token names the session is
-- refused with status 401, as long as no login draws the same identifier.
pub authenticate-logout :
    (env env' : PortalEnv) (who : Identity) (p : Portal) (events : List Event) (r : Request)
    (c : Claims)
    → (who.session_id == "") ≡ false
    → All (λ e. draws who.session_id e ≡ false) events
    → IsBearer r
    → validate_token env'.jwt env'.now env'.new_session_id (token_of r) ≡ some c
    → c.session_id ≡ who.session_id
    → let left = after_events events (logout env who p).0 in
      let revoked =
        after_events events
          (record p { sessions = (force_revoke_session env.now who.session_id p.sessions).0 }) in
      ((authenticate (auth_env env') r (auth_state left)).access
        ≡ refused 401 "session expired or invalid")
      × ((authenticate (auth_env env') r (auth_state revoked)).access
          ≡ refused 401 "session expired or invalid")
authenticate-logout env env' who p events r c named others bearer valid same =
    let left = (logout env who p).0 in
    let revoked : Portal = record p {
      sessions = (force_revoke_session env.now who.session_id p.sessions).0;
    } in
    (
      bearer_refused env' r (after_events events left) c bearer valid (
          ap (λ i. lookup i (run events left.sessions)) same
          ∙ lookup-run who.session_id events left.sessions others (lookup-logout env who p named)),
      bearer_refused env' r (after_events events revoked) c bearer valid (
          ap (λ i. lookup i (run events revoked.sessions)) same
          ∙ lookup-run who.session_id events revoked.sessions others
              (lookup-force_revoke_session env.now who.session_id p.sessions named)),
    )

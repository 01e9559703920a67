-- ===== src/UserSessions/Endings.antt =====
-- backend/auth/session_manager.go: a session that has ended stays away.
use mathlib.Core.Option
use human_guard.Base.{
  lookup-adjust, lookup-insert, lookup-delete, ℕ, String, ◌≡◌, refl, ap, ◌∙◌, inl, inr, Bool, true,
  false, Option, none, List, [], ◌∷◌, arith, ◌==◌, if◌then◌else◌, Option-cases, keep, All, lookup,
}
use human_guard.Clock.{Time}
use human_guard.UserSessions.{
  opened, UserSession, UserSessions, Login, cleanup, open_session, get_user_session,
  update_last_seen, revoke_session, request,
}

-- What else happens to the sessions: logins, requests with a session, revocations and sweeps.
pub data Event : Type 0 where
  opens : ℕ → Time → String → Login → Event
  requests : ℕ → Time → String → Event
  revokes : String → Event
  sweeps : Time → Event

unfoldable pub occur : Event → UserSessions → UserSessions
occur (opens ttl now id l) m = open_session ttl now id l m
occur (requests ttl now id) m = (request ttl now id m).0
occur (revokes id) m = revoke_session id m
occur (sweeps now) m = cleanup now m

unfoldable pub run : List Event → UserSessions → UserSessions
run [] m = m
run (e ∷ es) m = run es (occur e m)

-- An event is a login that draws this identifier.
abbrev pub draws : String → Event → Bool
draws id (opens ttl now drawn l) = drawn == id
draws id (requests ttl now other) = false
draws id (revokes other) = false
draws id (sweeps now) = false

lookup-keep-none :
    (id : String) (p : String × UserSession → Bool) (m : UserSessions)
    → lookup id m ≡ none
    → lookup id (keep p m) ≡ none
unfolding lookup
lookup-keep-none id p [] absent = refl
lookup-keep-none id p ((j, s) ∷ m) absent =
    let other : (j == id) ≡ false = ground arith in
    let rest = lookup-keep-none id p m (ground arith) in ground arith

lookup-get_user_session :
    (now : Time) (id j : String) (m : UserSessions)
    → lookup id m ≡ none
    → lookup id (get_user_session now j m).0 ≡ none
unfolding get_user_session
lookup-get_user_session now id j m absent = ground (arith, lookup-delete j id m)

rewritten_none :
    (b : Bool) (f : UserSession → UserSession) (o : Option UserSession)
    → o ≡ none
    → (if b then Option.map f o else o) ≡ none
rewritten_none true f o absent = ap (Option.map f) absent
rewritten_none false f o absent = absent

lookup-request :
    (ttl : ℕ) (now : Time) (id j : String) (m : UserSessions)
    → lookup id m ≡ none
    → lookup id (request ttl now j m).0 ≡ none
unfolding request update_last_seen
lookup-request ttl now id j m absent =
    let swept = lookup-get_user_session now id j m absent in
    elim (Option-cases (get_user_session now j m).1) [
      | inl gone ↦ rw (request, gone) swept
      | inr (s, found) ↦
          rw (request, found, update_last_seen)
            (lookup-adjust j id _ (get_user_session now j m).0 ∙ rewritten_none (j == id) _ _ swept)
    ]

lookup-occur :
    (id : String) (e : Event) (m : UserSessions)
    → draws id e ≡ false
    → lookup id m ≡ none
    → lookup id (occur e m) ≡ none
unfolding occur open_session revoke_session cleanup
lookup-occur id (opens ttl now j l) m other absent =
    ground (arith, lookup-insert j id (opened ttl now j l) m)
lookup-occur id (requests ttl now j) m other absent = lookup-request ttl now id j m absent
lookup-occur id (revokes j) m other absent = ground (arith, lookup-delete j id m)
lookup-occur id (sweeps now) m other absent = lookup-keep-none id _ m absent

pub lookup-run :
    (id : String) (es : List Event) (m : UserSessions)
    → All (λ e. draws id e ≡ false) es
    → lookup id m ≡ none
    → lookup id (run es m) ≡ none
unfolding run
lookup-run id [] m others absent = absent
lookup-run id (e ∷ es) m (other, others) absent =
    lookup-run id es (occur e m) others (lookup-occur id e m other absent)

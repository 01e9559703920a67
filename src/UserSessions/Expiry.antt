-- ===== src/UserSessions/Expiry.antt =====
-- How long the session of a signed-in user lasts.
use human_guard.Base.{
  lookup-delete, lookup-keep_values, lookup-insert_self, Distinct, lookup-adjust, ℕ, ◌+◌, ◌≤◌, ◌<◌,
  String, ◌≡◌, refl, Bool, true, not, ◌&&◌, none, some, List, [], ◌∷◌, arith, eq_refl,
  if◌then◌else◌, lookup, adjust,
}
use human_guard.Clock.{Time, after}
use human_guard.UserSessions.{
  UserSession, UserSessions, Login, opened, seen, cleanup, open_session, get_user_session,
  update_last_seen, revoke_session, request,
}

-- What `Get` answers.
get_user_session_lem :
    (now : Time) (id : String) (m : UserSessions)
    → (get_user_session now id m).1 ≡ elim (lookup id m) [
      | none ↦ none
      | some s ↦ if after now s.expires_at then none else some s
    ]
unfolding get_user_session
get_user_session_lem now id m = ground arith

-- The background sweep is invisible: whether it has run at an earlier time or not, `Get` answers the
-- same for every identifier, since it checks the expiry itself. The identifiers in the map are
-- distinct.
pub get_user_session-cleanup :
    (earlier now : Time) (id : String) (m : UserSessions)
    → earlier ≤ now
    → Distinct m
    → (get_user_session now id (cleanup earlier m)).1 ≡ (get_user_session now id m).1
unfolding get_user_session cleanup
get_user_session-cleanup earlier now id m before d =
    ground (arith, lookup-keep_values id (λ s. not (after earlier s.expires_at)) m d)

-- One request within the expiry of the session is let through and moves the expiry.
request_lem :
    (ttl : ℕ) (now : Time) (id : String) (s : UserSession) (m : UserSessions)
    → lookup id m ≡ some s
    → now ≤ s.expires_at
    → ((request ttl now id m).1 ≡ true)
      × (lookup id (request ttl now id m).0 ≡ some (seen ttl now s))
unfolding request get_user_session update_last_seen
request_lem ttl now id s m e within =
    ground (arith, lookup-adjust id id (seen ttl now) m, eq_refl id)

-- The requests of one session at the times of a list, and whether all of them were let through.
unfoldable pub requests : ℕ → String → List Time → UserSessions → UserSessions × Bool
requests ttl id [] m = (m, true)
requests ttl id (t ∷ ts) m =
    let (m', passed) = request ttl t id m in
    let (m'', rest) = requests ttl id ts m' in (m'', passed && rest)

-- Each time is at most `ttl` after the one before it.
abbrev pub AreClose : ℕ → Time → List Time → Type 0
AreClose ttl last [] = Unit
AreClose ttl last (t ∷ ts) = (t ≤ last + ttl) × AreClose ttl t ts

requests_close :
    (ttl : ℕ) (id : String) (last : Time) (ts : List Time) (s : UserSession) (m : UserSessions)
    → lookup id m ≡ some s
    → s.expires_at ≡ last + ttl
    → AreClose ttl last ts
    → (requests ttl id ts m).1 ≡ true
unfolding requests
requests_close ttl id last [] s m e x close = refl
requests_close ttl id last (t ∷ ts) s m e x close =
    let now = request_lem ttl t id s m e (ground (arith, close.0)) in
    let rest =
      requests_close ttl id t ts (seen ttl t s) (request ttl t id m).0 now.1 refl close.1 in
    rw (now.0, requests) rest

-- A session that is opened stays usable as long as its requests come at most `ttl` after each other,
-- however many there are: every one of them is let through.
pub requests-open_session :
    (ttl : ℕ) (now : Time) (id : String) (l : Login) (ts : List Time) (m : UserSessions)
    → AreClose ttl now ts
    → (requests ttl id ts (open_session ttl now id l m)).1 ≡ true
unfolding open_session
requests-open_session ttl now id l ts m close =
    requests_close ttl id now ts (opened ttl now id l) (open_session ttl now id l m)
      (lookup-insert_self id (opened ttl now id l) m) refl close

-- A session whose last request is more than `ttl` ago is refused and removed by the next one; a
-- session that an administrator revokes is refused at any time.
pub get_user_session_ends :
    (ttl : ℕ) (last now later : Time) (id : String) (s : UserSession) (m : UserSessions)
    → lookup id m ≡ some s
    → last + ttl < now
    → (lookup id (get_user_session now id (update_last_seen ttl last id m)).0 ≡ none)
      × ((get_user_session now id (update_last_seen ttl last id m)).1 ≡ none)
      × ((get_user_session later id (revoke_session id m)).1 ≡ none)
unfolding get_user_session update_last_seen revoke_session
get_user_session_ends ttl last now later id s m e late =
    let moved = lookup-adjust id id (seen ttl last) m in
    let gone = lookup-delete id id (adjust id (seen ttl last) m) in
    (
      ground (arith, moved, gone, eq_refl id),
      ground (arith, moved, eq_refl id),
      ground (arith, lookup-delete id id m, eq_refl id),
    )

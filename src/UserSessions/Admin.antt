-- ===== src/UserSessions/Admin.antt =====
-- backend/handlers/user_session.go with `ListAll` of backend/auth/session_manager.go: the sessions of
-- all users, for an administrator; the role is checked by the routes' middleware.
use human_guard.Base.{
  lookup-delete, ℕ, ◌+◌, String, ◌≡◌, refl, ◌∙◌, inl, inr, Option, none, some, List, [], ◌∷◌, arith,
  ◌==◌, eq_refl, if◌then◌else◌, Bool-cases, Option-cases, length, Dict, lookup, insert, delete,
}
use human_guard.Clock.{Time}
use human_guard.Reply.{Reply, http_error, json}
use human_guard.UserSessions.{UserSession, UserSessions, get_user_session, revoke_session}

-- Every session of the map, those past their expiry included.
unfoldable pub list_all : UserSessions → List UserSession
list_all [] = []
list_all ((id, s) ∷ m) = s ∷ list_all m

pub record SessionList : Type 0 where
  pub total : ℕ
  pub sessions : List UserSession

unfoldable pub list_all_user_sessions : UserSessions → Reply SessionList
list_all_user_sessions m = json 200 (record { total = length (list_all m); sessions = list_all m })

pub record RevokedSession : Type 0 where
  pub session_id : String
  pub user_id : String
  pub user_email : String

unfoldable pub force_revoke_session :
    Time → String → UserSessions → UserSessions × Reply RevokedSession
force_revoke_session now id m =
    let (m', found) = get_user_session now id m in
    if id == "" then (m, http_error 400 "session_id required") else elim found [
      | none ↦ (m', http_error 404 "Session not found")
      | some s ↦ (
        revoke_session id m',
        json 200 (record { session_id = s.id; user_id = s.user_id; user_email = s.email }),
      )
    ]

abbrev pub or_zero : Option ℕ → ℕ
or_zero none = 0
or_zero (some n) = n

-- `userSessionsMap[sess.UserID]++`.
abbrev pub increment : String → Dict ℕ → Dict ℕ
increment k m = insert k (or_zero (lookup k m) + 1) m

pub record UserInfo : Type 0 where
  pub email : String
  pub role : String

-- The first session of a user gives the information.
abbrev pub learn : UserSession → Dict UserInfo → Dict UserInfo
learn s m = elim (lookup s.user_id m) [
  | none ↦ insert s.user_id (record { email = s.email; role = s.role }) m
  | some known ↦ m
]

pub record UserSessionsStats : Type 0 where
  pub total_sessions : ℕ
  pub total_users : ℕ
  pub sessions_per_user : Dict ℕ
  pub users_info : Dict UserInfo

-- The loop over the sessions, from what has been counted so far.
unfoldable pub count_sessions : List UserSession → Dict ℕ × Dict UserInfo → Dict ℕ × Dict UserInfo
count_sessions [] (counts, infos) = (counts, infos)
count_sessions (s ∷ ss) (counts, infos) =
    count_sessions ss (increment s.user_id counts, learn s infos)

unfoldable pub get_sessions_stats : UserSessions → Reply UserSessionsStats
get_sessions_stats m =
    let (counts, infos) = count_sessions (list_all m) ([], []) in
    json 200 (record {
      total_sessions = length (list_all m);
      total_users = length counts;
      sessions_per_user = counts;
      users_info = infos;
    })

unfoldable pub sum_of : Dict ℕ → ℕ
sum_of [] = 0
sum_of ((k, n) ∷ m) = n + sum_of m

sum_of-insert :
    (k : String) (n : ℕ) (m : Dict ℕ) → sum_of (insert k n m) + or_zero (lookup k m) ≡ sum_of m + n
unfolding sum_of insert lookup
sum_of-insert k n [] = omega arith
sum_of-insert k n ((j, v) ∷ m) = ground (arith, sum_of-insert k n m)

sum_of-increment : (k : String) (m : Dict ℕ) → sum_of (increment k m) ≡ sum_of m + 1
sum_of-increment k m = omega (arith, sum_of-insert k (or_zero (lookup k m) + 1) m)

-- The numbers of sessions that are counted for the users add up to the number of sessions.
pub sum_of-count_sessions :
    (ss : List UserSession) (counts : Dict ℕ) (infos : Dict UserInfo)
    → sum_of (count_sessions ss (counts, infos)).0 ≡ sum_of counts + length ss
unfolding count_sessions
sum_of-count_sessions [] counts infos = omega arith
sum_of-count_sessions (s ∷ ss) counts infos = omega (
  arith,
  sum_of-count_sessions ss (increment s.user_id counts) (learn s infos),
  sum_of-increment s.user_id counts,
)

get_user_session-revoke_session :
    (later : Time) (id : String) (m : UserSessions)
    → (get_user_session later id (revoke_session id m)).1 ≡ none
unfolding get_user_session revoke_session
get_user_session-revoke_session later id m =
    let gone : lookup id (delete id m) ≡ none = lookup-delete id id m ∙ rw (eq_refl id) refl in
    rw (get_user_session, revoke_session, gone) refl

-- A session that has been revoked by force is not found again.
pub get_user_session-force_revoke_session :
    (now later : Time) (id : String) (m : UserSessions) (reply : RevokedSession)
    → (force_revoke_session now id m).1 ≡ json 200 reply
    → (get_user_session later id (force_revoke_session now id m).0).1 ≡ none
unfolding force_revoke_session
get_user_session-force_revoke_session now later id m reply done = elim (Bool-cases (id == "")) [
  | inl absent ↦ ground arith
  | inr given ↦ elim (Option-cases (get_user_session now id m).1) [
    | inl lost ↦ ground arith
    | inr (s, found) ↦
        let step : (force_revoke_session now id m).0
            ≡ revoke_session id (get_user_session now id m).0 =
          rw (force_revoke_session, given, found) refl in
        rw step (get_user_session-revoke_session later id (get_user_session now id m).0)
  ]
]

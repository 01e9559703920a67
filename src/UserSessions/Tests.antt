-- ===== src/UserSessions/Tests.antt =====
-- The sessions of users on concrete times.
use human_guard.Base.{◌+◌, ◌≡◌, true, [], ◌∷◌, arith}
use human_guard.Clock.{minute, hour}
use human_guard.UserSessions.{Login, open_session}
use human_guard.UserSessions.Expiry.{requests, requests-open_session}
use human_guard.Samples.{noon}

abbrev ann : Login
ann = record {
  user_id = "u1";
  email = "ann@example.org";
  role = "admin";
  ip = "192.0.2.1";
  user_agent = "Mozilla/5.0";
}

requests-open_session_example :
    (requests hour "s1"
      ((noon + minute) ∷ (noon + hour) ∷ [])
      (open_session hour noon "s1" ann [])).1
    ≡ true
requests-open_session_example =
    requests-open_session hour noon "s1" ann ((noon + minute) ∷ (noon + hour) ∷ []) []
      (omega arith, (omega arith, tt))

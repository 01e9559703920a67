-- ===== src/Session/Lifecycle.antt =====
-- The life of a visitor session: a block ends its activity, and the sweep drops what is inactive.
use human_guard.Base.{
  All-keep, delete-All, insert-All, ◌+◌, ◌≤◌, ◌<◌, String, some, List, [], ◌∷◌, ◌≡◌, ◌⊎◌, refl,
  true, false, not, arith, eq_refl, lookup, All, length, count_if, keep, lookup-keep_values,
  Distinct, ◌↔◌,
}
use human_guard.Errors.{ok, err, session_not_found}
use human_guard.Clock.{Time}
use human_guard.Session.{
  ActiveSession, Sessions, started, create_session, get_session, modify, update_session_activity,
  deactivate_session, block_session, unblock_session, update_risk_score, mark_captcha_shown,
  update_session_metrics, cleanup_loop, cleanup_expired_sessions, survives,
}
use human_guard.Session.Effects.{modify-All, lookup-modify, modify-Distinct}
use human_guard.Session.Steps.{
  Op, create, touch, deactivate, block, unblock, show_captcha, score, measure, sweep, step, run,
}

-- A session is blocked exactly when it is not active, and stands under its own identifier.
abbrev pub IsCoherent : String × ActiveSession → Type 0
IsCoherent e = (e.0 ≡ e.1.id) × (e.1.is_blocked ≡ not e.1.is_active)

abbrev pub AllCoherent : Sessions → Type 0
AllCoherent m = All IsCoherent m

-- Sessions are created active and not blocked.
abbrev pub IsFresh : Op → Type 0
IsFresh (create s) = (s.is_active ≡ true) × (s.is_blocked ≡ false)
IsFresh _ = Unit

pub step-AllCoherent :
    (now : Time) (op : Op) (m : Sessions) → IsFresh op → AllCoherent m → AllCoherent (step now op m)
unfolding step create_session update_session_activity block_session unblock_session
    mark_captcha_shown update_risk_score update_session_metrics cleanup_loop deactivate_session
step-AllCoherent now (create s) m f h =
    insert-All IsCoherent s.id (started now s) m (refl, ground arith) h
step-AllCoherent now (touch id) m f h = modify-All IsCoherent id _ m (λ k s c. c) h
step-AllCoherent now (deactivate id) m f h = ground (arith, delete-All IsCoherent id m h)
step-AllCoherent now (block id) m f h = modify-All IsCoherent id _ m (λ k s c. (c.0, refl)) h
step-AllCoherent now (unblock id) m f h = modify-All IsCoherent id _ m (λ k s c. (c.0, refl)) h
step-AllCoherent now (show_captcha id) m f h = modify-All IsCoherent id _ m (λ k s c. c) h
step-AllCoherent now (score id n) m f h = modify-All IsCoherent id _ m (λ k s c. c) h
step-AllCoherent now (measure id new) m f h = modify-All IsCoherent id _ m (λ k s c. c) h
step-AllCoherent now sweep m f h = All-keep IsCoherent (λ e. survives now e.1) m h

-- Any sequence of calls in which sessions are created active and not blocked keeps this invariant:
-- each session stands under its own identifier, and is blocked exactly when it is not active.
pub run-AllCoherent :
    (ops : List (Time × Op)) (m : Sessions)
    → All (λ c. IsFresh c.1) ops
    → AllCoherent m
    → AllCoherent (run m ops)
unfolding run
run-AllCoherent [] m f h = h
run-AllCoherent ((now, op) ∷ ops) m f h =
    run-AllCoherent ops (step now op m) f.1 (step-AllCoherent now op m f.0 h)

-- A blocked session that the next sweep finds, at whatever time, is forgotten: a lookup of it
-- fails as if it had never been, so the mark `IsBlocked` lasts no longer than one cleanup period.
pub cleanup-block_session :
    (now : Time) (id : String) (m : Sessions)
    → Distinct m
    → get_session id (cleanup_loop now (block_session id m).0) ≡ err session_not_found
unfolding get_session cleanup_loop block_session
cleanup-block_session now id m d =
    let blocked = λ (s : ActiveSession). record s { is_blocked = true; is_active = false } in
    ground (
      arith,
      lookup-keep_values id (survives now) (modify id blocked m).0 (modify-Distinct id blocked m d),
      lookup-modify id id blocked m,
      eq_refl id,
    )

-- A session is still found after a sweep, unchanged, exactly when it is active and not past its
-- expiry, and the lookup fails exactly when it is inactive or past its expiry. The identifiers in
-- the map are distinct.
pub get_session-cleanup_loop :
    (now : Time) (id : String) (s : ActiveSession) (m : Sessions)
    → Distinct m
    → lookup id m ≡ some s
    → ((get_session id (cleanup_loop now m) ≡ ok s) ↔ ((s.is_active ≡ true) × (now ≤ s.expires_at)))
      × ((get_session id (cleanup_loop now m) ≡ err session_not_found)
          ↔ ((s.is_active ≡ false) ⊎ (s.expires_at < now)))
unfolding get_session cleanup_loop
get_session-cleanup_loop now id s m d e =
    let swept = lookup-keep_values id (survives now) m d in
    (ground (arith, swept), ground (arith, swept))

-- `CleanupExpiredSessions` drops what the background sweep drops, and reports how many.
pub cleanup_expired_sessions_count :
    (now : Time) (m : Sessions)
    → ((cleanup_expired_sessions now m).0 ≡ cleanup_loop now m)
      × ((cleanup_expired_sessions now m).1 + length (cleanup_expired_sessions now m).0 ≡ length m)
unfolding cleanup_expired_sessions cleanup_loop
cleanup_expired_sessions_count now m = (refl, split m)
  where
    split :
        (m : Sessions)
        → count_if (λ e. not (survives now e.1)) m + length (keep (λ e. survives now e.1) m)
          ≡ length m
    split [] = omega arith
    split ((k, s) ∷ m) = ground (arith, split m)

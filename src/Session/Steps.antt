-- ===== src/Session/Steps.antt =====
-- The operations that change the session store, as steps of one machine, and the view of the store
-- that callers have: a partial function from identifiers to sessions.
use mathlib.Core.Option
use human_guard.Base.{
  eqb, leb, ◌&&◌, ℕ, ◌+◌, String, true, false, Option, none, some, List, [], ◌∷◌, ◌==◌, Dict,
  lookup, if◌then◌else◌,
}
use human_guard.Value.{Value}
use human_guard.Clock.{Time}
use human_guard.Session.{
  ActiveSession, Sessions, create_session, update_session_activity, deactivate_session,
  block_session, unblock_session, update_risk_score, mark_captcha_shown, update_session_metrics,
  cleanup_loop,
}

pub data Op : Type 0 where
  create : ActiveSession → Op
  touch deactivate block unblock show_captcha : String → Op
  score : String → ℕ → Op
  measure : String → Dict Value → Op
  sweep : Op

-- One call of the store at the time `now`.
unfoldable pub step : Time → Op → Sessions → Sessions
step now (create s) m = create_session now s m
step now (touch id) m = (update_session_activity now id m).0
step now (deactivate id) m = (deactivate_session id m).0
step now (block id) m = (block_session id m).0
step now (unblock id) m = (unblock_session id m).0
step now (show_captcha id) m = (mark_captcha_shown id m).0
step now (score id n) m = (update_risk_score id n m).0
step now (measure id new) m = (update_session_metrics id new m).0
step now sweep m = cleanup_loop now m

unfoldable pub run : Sessions → List (Time × Op) → Sessions
run m [] = m
run m ((now, op) ∷ ops) = run (step now op m) ops

-- A session as callers see it: its fields without the metrics, and the metrics as a function.
abbrev pub Seen : Type 0
Seen = ActiveSession × (String → Option Value)

abbrev pub see : ActiveSession → Seen
see s = (record s { metrics = [] }, λ k. lookup k s.metrics)

abbrev pub View : Type 0
View = String → Option Seen

abbrev pub view : Sessions → View
view m id = Option.map see (lookup id m)

abbrev pub at_id : String → (Seen → Seen) → View → View
at_id id f v j = if id == j then Option.map f (v j) else v j

-- The fields of a session other than its metrics are rewritten.
abbrev pub with_fields : (ActiveSession → ActiveSession) → Seen → Seen
with_fields f (s, metrics) = (f s, metrics)

-- What stands under a key after the entries of a batch have been written in their order.
abbrev pub latest : String → Dict Value → Option Value → Option Value
latest k [] old = old
latest k ((j, value) ∷ batch) old = latest k batch (if j == k then some value else old)

-- What each call does to the view, written out and without the map.
abbrev pub spec : Time → Op → View → View
spec now (create s) v j =
    if s.id == j
    then some (
      record s {
        metrics = [];
        created_at = now;
        last_activity = now;
        expires_at = if eqb s.expires_at 0 then now + 1_800_000_000_000 else s.expires_at;
      },
      λ k. lookup k s.metrics,
    )
    else v j
spec now (touch id) v j =
    at_id id
      (with_fields (λ s. record s { last_activity = now; expires_at = now + 1_800_000_000_000 })) v
      j
spec now (deactivate id) v j = if id == j then none else v j
spec now (block id) v j =
    at_id id (with_fields (λ s. record s { is_blocked = true; is_active = false })) v j
spec now (unblock id) v j =
    at_id id (with_fields (λ s. record s { is_blocked = false; is_active = true })) v j
spec now (show_captcha id) v j = at_id id (with_fields (λ s. record s { captcha_shown = true })) v j
spec now (score id n) v j = at_id id (with_fields (λ s. record s { risk_score = n })) v j
spec now (measure id new) v j = at_id id (λ (s, metrics). (s, λ k. latest k new (metrics k))) v j
spec now sweep v j = elim (v j) [
  | none ↦ none
  | some (s, metrics) ↦ if s.is_active && leb now s.expires_at then some (s, metrics) else none
]

abbrev pub run_spec : View → List (Time × Op) → View
run_spec v [] = v
run_spec v ((now, op) ∷ ops) = run_spec (spec now op v) ops

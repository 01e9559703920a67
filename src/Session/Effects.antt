-- ===== src/Session/Effects.antt =====
-- The store does to its view what the calls promise, whatever the order of the map.
use mathlib.Core.Path.{fun_ext}
use mathlib.Core.Option
use human_guard.Base.{
  Option, some, leb, ◌&&◌, Dict, Bool-cases, insert, adjust-All, String, none, List, [], ◌∷◌, ◌≡◌,
  refl, ap, ◌∙◌, inl, inr, arith, eq_iff, ◌==◌, lookup, lookup-insert, lookup-delete, lookup-adjust,
  lookup-keep_values, Distinct, insert-Distinct, delete-Distinct, adjust-Distinct, keep-Distinct,
  if◌then◌else◌, Option-cases, All, ◌&&◌, Option, some, leb,
}
use human_guard.Clock.{Time}
use human_guard.Session.{
  merge, ActiveSession, Sessions, started, create_session, modify, update_session_activity,
  deactivate_session, block_session, unblock_session, update_risk_score, mark_captcha_shown,
  update_session_metrics, cleanup_loop, survives,
}
use human_guard.Value.{Value}
use human_guard.Session.Steps.{
  Seen, see, at_id, latest, Op, create, touch, deactivate, block, unblock, show_captcha, score,
  measure, sweep, step, run, view, spec, run_spec,
}

-- The session named is rewritten, if it is there, and no other one is touched.
pub lookup-modify :
    (id j : String) (f : ActiveSession → ActiveSession) (m : Sessions)
    → lookup j (modify id f m).0 ≡ (if id == j then Option.map f (lookup j m) else lookup j m)
unfolding modify
lookup-modify id j f m = elim (Option-cases (lookup id m)) [
  | inl e ↦ rw (e, modify) (ground (arith, eq_iff id j))
  | inr (s, e) ↦ rw (e, modify) (lookup-adjust id j f m)
]

pub modify-All :
    (Q : String × ActiveSession → Type 0) (id : String) (f : ActiveSession → ActiveSession)
    (m : Sessions)
    → ((j : String) (s : ActiveSession) → Q (j, s) → Q (j, f s))
    → All Q m
    → All Q (modify id f m).0
unfolding modify
modify-All Q id f m c h = ground (arith, adjust-All Q id f m c h)

lookup-deactivate :
    (id j : String) (m : Sessions)
    → lookup j (deactivate_session id m).0 ≡ (if id == j then none else lookup j m)
unfolding deactivate_session
lookup-deactivate id j m = elim (Option-cases (lookup id m)) [
  | inl e ↦ rw (e, deactivate_session) (ground (arith, eq_iff id j))
  | inr (s, e) ↦ rw (e, deactivate_session) (lookup-delete id j m)
]

pub modify-Distinct :
    (id : String) (f : ActiveSession → ActiveSession) (m : Sessions)
    → Distinct m
    → Distinct (modify id f m).0
unfolding modify
modify-Distinct id f m d = ground (arith, adjust-Distinct id f m d)

deactivate-Distinct :
    (id : String) (m : Sessions) → Distinct m → Distinct (deactivate_session id m).0
unfolding deactivate_session
deactivate-Distinct id m d = ground (arith, delete-Distinct id m d)

-- Every call keeps the identifiers in the map distinct.
pub step-Distinct : (now : Time) (op : Op) (m : Sessions) → Distinct m → Distinct (step now op m)
unfolding step create_session update_session_activity block_session unblock_session
    mark_captcha_shown update_risk_score update_session_metrics cleanup_loop
step-Distinct now (create s) m d = insert-Distinct s.id (started now s) m d
step-Distinct now (touch id) m d = modify-Distinct id _ m d
step-Distinct now (deactivate id) m d = deactivate-Distinct id m d
step-Distinct now (block id) m d = modify-Distinct id _ m d
step-Distinct now (unblock id) m d = modify-Distinct id _ m d
step-Distinct now (show_captcha id) m d = modify-Distinct id _ m d
step-Distinct now (score id n) m d = modify-Distinct id _ m d
step-Distinct now (measure id new) m d = modify-Distinct id _ m d
step-Distinct now sweep m d = keep-Distinct (λ e. survives now e.1) m d

seen-map :
    (f : ActiveSession → ActiveSession) (g : Seen → Seen)
    → ((s : ActiveSession) → see (f s) ≡ g (see s))
    → (o : Option ActiveSession) → Option.map see (Option.map f o) ≡ Option.map g (Option.map see o)
seen-map f g same none = refl
seen-map f g same (some s) = ap (λ x. some x) (same s)

-- A rewriting of the stored sessions, seen through the view.
view-modify :
    (id j : String) (f : ActiveSession → ActiveSession) (g : Seen → Seen) (m : Sessions)
    → ((s : ActiveSession) → see (f s) ≡ g (see s))
    → view (modify id f m).0 j ≡ at_id id g (view m) j
view-modify id j f g m same = elim (Bool-cases (id == j)) [
  | inl here ↦ rw (lookup-modify id j f m, here) (seen-map f g same (lookup j m))
  | inr other ↦ rw (lookup-modify id j f m, other) refl
]

view-create :
    (now : Time) (s : ActiveSession) (m : Sessions) (j : String)
    → view (create_session now s m) j ≡ spec now (create s) (view m) j
unfolding create_session
view-create now s m j = elim (Bool-cases (s.id == j)) [
  | inl here ↦ rw (create_session, lookup-insert s.id j (started now s) m, here) refl
  | inr other ↦ rw (create_session, lookup-insert s.id j (started now s) m, other) refl
]

view-deactivate :
    (now : Time) (id : String) (m : Sessions) (j : String)
    → view (deactivate_session id m).0 j ≡ spec now (deactivate id) (view m) j
view-deactivate now id m j = elim (Bool-cases (id == j)) [
  | inl here ↦ rw (lookup-deactivate id j m, here) refl
  | inr other ↦ rw (lookup-deactivate id j m, other) refl
]

survives_written_out :
    (now : Time) (s : ActiveSession) → survives now s ≡ s.is_active && leb now s.expires_at
survives_written_out now s = ground arith

view-cleanup_loop :
    (now : Time) (m : Sessions) (j : String)
    → Distinct m
    → view (cleanup_loop now m) j ≡ spec now sweep (view m) j
unfolding cleanup_loop
view-cleanup_loop now m j d = elim (Option-cases (lookup j m)) [
  | inl absent ↦ rw (cleanup_loop, spec, view, lookup-keep_values j (survives now) m d, absent) refl
  | inr (s, there) ↦ elim (Bool-cases (s.is_active && leb now s.expires_at)) [
    | inl stays ↦
        let kept = survives_written_out now s ∙ stays in
        rw (cleanup_loop, spec, view, lookup-keep_values j (survives now) m d, there, kept, stays)
          refl
    | inr goes ↦
        let dropped = survives_written_out now s ∙ goes in
        rw (cleanup_loop, spec, view, lookup-keep_values j (survives now) m d, there, dropped, goes)
          refl
  ]
]

lookup-merge :
    (k : String) (into batch : Dict Value)
    → lookup k (merge into batch) ≡ latest k batch (lookup k into)
unfolding merge
lookup-merge k into [] = refl
lookup-merge k into ((j, value) ∷ batch) =
    lookup-merge k (insert j value into) batch ∙ ap (latest k batch) (lookup-insert j k value into)

pub view-step :
    (now : Time) (op : Op) (m : Sessions) → Distinct m → view (step now op m) ≡ spec now op (view m)
unfolding step create_session update_session_activity block_session unblock_session
    mark_captcha_shown update_risk_score update_session_metrics cleanup_loop
view-step now (create s) m d = fun_ext (λ j. view-create now s m j)
view-step now (touch id) m d = fun_ext (λ j. view-modify id j _ _ m (λ s. refl))
view-step now (deactivate id) m d = fun_ext (λ j. view-deactivate now id m j)
view-step now (block id) m d = fun_ext (λ j. view-modify id j _ _ m (λ s. refl))
view-step now (unblock id) m d = fun_ext (λ j. view-modify id j _ _ m (λ s. refl))
view-step now (show_captcha id) m d = fun_ext (λ j. view-modify id j _ _ m (λ s. refl))
view-step now (score id n) m d = fun_ext (λ j. view-modify id j _ _ m (λ s. refl))
view-step now (measure id new) m d = fun_ext (λ j.
    view-modify id j _ _ m
      (λ s i. (record s { metrics = [] }, λ k. lookup-merge k s.metrics new i)))
view-step now sweep m d = fun_ext (λ j. view-cleanup_loop now m j d)

-- After any sequence of calls, from a store with distinct identifiers, callers see what the
-- specification of the calls gives, and the identifiers are still distinct. The specification has a
-- session stored under its identifier with the three times set, its expiry 30 minutes ahead unless it
-- was given; an activity that renews it for 30 minutes; blocking, unblocking, the captcha mark, the
-- risk and the metrics, of which the last one written for a name stays, each for the session named
-- alone; a deactivation that removes it; and a sweep that keeps the active sessions whose expiry has
-- not passed.
pub view-run :
    (ops : List (Time × Op)) (m : Sessions)
    → Distinct m
    → (view (run m ops) ≡ run_spec (view m) ops) × Distinct (run m ops)
unfolding run
view-run [] m d = (refl, d)
view-run ((now, op) ∷ ops) m d =
    let (same, kept) = view-run ops (step now op m) (step-Distinct now op m d) in
    (same ∙ ap (λ v. run_spec v ops) (view-step now op m d), kept)

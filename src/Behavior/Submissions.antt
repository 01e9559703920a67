-- ===== src/Behavior/Submissions.antt =====
-- What a submission of behaviour metrics does.
use human_guard.Base.{
  Distinct, lookup-insert, lookup-Missing, insert-Distinct, String, ◌≡◌, refl, ap, ◌∙◌, ◌≢◌, ◌⊎◌,
  inl, inr, false, Option, none, some, [], ◌∷◌, arith, ◌==◌, eq_iff, eq_refl, Bool-cases,
  Option-cases, Dict, lookup, insert,
}
use human_guard.Errors.{Result-cases, ok}
use human_guard.Value.{Value}
use human_guard.Session.{
  ActiveSession, Sessions, merge, modify, get_session, get_session_metrics, update_session_metrics,
}
use human_guard.Session.Effects.{lookup-modify}
use human_guard.World.{World, Env}
use human_guard.Http.{Request, Body, parsed, unreadable, empty, malformed, header}
use human_guard.Behavior.{
  accept, known_metrics, write_metrics, BehaviorBatch, Submission, store_batch, submit_batch,
  submit_behavior,
}

abbrev pub or_else {ℓ} : {A : Type ℓ} → Option A → Option A → Option A
or_else (some a) o = some a
or_else none o = o

-- A later entry wins over an earlier one of the same key.
pub lookup-merge :
    (k : String) (into from : Dict Value)
    → Distinct from
    → lookup k (merge into from) ≡ or_else (lookup k from) (lookup k into)
unfolding merge lookup
lookup-merge k into [] d = refl
lookup-merge k into ((j, v) ∷ from) d = ground (
  arith,
  lookup-merge k (insert j v into) from d.1,
  lookup-insert j k v into,
  lookup-Missing j from d.0,
  eq_iff j k,
  ap (λ i. lookup i from) {x = j} {y = k},
)

merge-Distinct : (into from : Dict Value) → Distinct into → Distinct (merge into from)
unfolding merge
merge-Distinct into [] d = d
merge-Distinct into ((j, v) ∷ from) d =
    merge-Distinct (insert j v into) from (insert-Distinct j v into d)

abbrev Refused : World → Submission → Type 0
Refused w x = (x.world ≡ w) × (x.job ≡ none)

abbrev Settled : World → Submission → Type 0
Settled w x = (x.response.status ≡ 202) ⊎ Refused w x

store_batch-Settled :
    (env : Env) (r : Request) (id : String) (s : ActiveSession) (m : Dict Value) (w : World)
    → Settled w (store_batch env r id s m w)
unfolding store_batch write_metrics update_session_metrics modify
store_batch-Settled env r id s [] w = inl refl
store_batch-Settled env r id s (m ∷ ms) w = elim (Option-cases (lookup id w.sessions)) [
  | inl e ↦ rw (e, store_batch, write_metrics, update_session_metrics, modify) (inr (refl, refl))
  | inr (t, e) ↦ rw (e, store_batch, write_metrics, update_session_metrics, modify) (inl refl)
]

submit_batch-Settled :
    (env : Env) (r : Request) (id : String) (s : ActiveSession) (body : Body BehaviorBatch)
    (w : World)
    → Settled w (submit_batch env r id s body w)
unfolding submit_batch
submit_batch-Settled env r id s unreadable w = inr (refl, refl)
submit_batch-Settled env r id s empty w = inr (refl, refl)
submit_batch-Settled env r id s malformed w = inr (refl, refl)
submit_batch-Settled env r id s (parsed b) w = elim (Bool-cases (b.session_id == id)) [
  | inl same ↦ rw (same, submit_batch) (store_batch-Settled env r id s b.metrics w)
  | inr other ↦ rw (other, submit_batch) (inr (refl, refl))
]

submit_behavior-Settled :
    (env : Env) (r : Request) (id : String) (body : Body BehaviorBatch) (w : World)
    → Settled w (submit_behavior env r id body w)
unfolding submit_behavior
submit_behavior-Settled env r id body w = elim (Result-cases (get_session id w.sessions)) [
  | inl (e, missing) ↦ ground (arith, missing)
  | inr (s, known) ↦ ground (arith, known, submit_batch-Settled env r id s body w)
]

-- A submission that is not accepted with status 202, a preflight request among them, changes
-- nothing and starts no analysis.
pub submit_behavior_refused :
    (env : Env) (r : Request) (id : String) (body : Body BehaviorBatch) (w : World)
    → (submit_behavior env r id body w).response.status ≢ 202
    → ((submit_behavior env r id body w).world ≡ w) × ((submit_behavior env r id body w).job ≡ none)
submit_behavior_refused env r id body w h = elim (submit_behavior-Settled env r id body w) [
  | inl served ↦ absurd (h served)
  | inr same ↦ same
]

-- The session after its metrics have been written, key by key.
abbrev pub Merged : ActiveSession → Dict Value → Option ActiveSession → Type 0
Merged s new o =
    (m : Dict Value) × (o ≡ some (record s { metrics = m }))
    × ((k : String) → lookup k m ≡ or_else (lookup k new) (lookup k s.metrics))

get_session_metrics-some :
    (id : String) (m : Sessions) (s : ActiveSession)
    → lookup id m ≡ some s
    → get_session_metrics id m ≡ ok s.metrics
unfolding get_session_metrics
get_session_metrics-some id m s e = rw (e, get_session_metrics)

update_session_metrics_lem :
    (id : String) (new : Dict Value) (m : Sessions) (s : ActiveSession)
    → lookup id m ≡ some s
    → (lookup id (update_session_metrics id new m).0
        ≡ some (record s { metrics = merge s.metrics new }))
      × ((update_session_metrics id new m).1 ≡ ok tt)
unfolding update_session_metrics
update_session_metrics_lem id new m s e =
    let write = λ (t : ActiveSession). record t { metrics = merge t.metrics new } in
    (lookup-modify id id write m ∙ rw (eq_refl id, e) refl, unfold modify in rw (e, modify))

-- Writing a merged map back over the old one changes nothing more.
merge_twice :
    (old new : Dict Value)
    → Distinct new
    → Distinct old
    → (k : String) → lookup k (merge old (merge old new)) ≡ or_else (lookup k new) (lookup k old)
merge_twice old new d ds k = ground (
  arith,
  lookup-merge k old (merge old new) (merge-Distinct old new ds),
  lookup-merge k old new d,
)

submit_behavior_lem :
    (env : Env) (r : Request) (id : String) (b : BehaviorBatch) (w : World) (s : ActiveSession)
    → (r.method == "OPTIONS") ≡ false
    → (id == "") ≡ false
    → lookup id w.sessions ≡ some s
    → (header "X-Site-ID" r ≡ "") ⊎ (header "X-Site-ID" r ≡ s.site_id)
    → b.session_id ≡ id
    → submit_behavior env r id (parsed b) w ≡ store_batch env r id s b.metrics w
unfolding submit_behavior submit_batch get_session
submit_behavior_lem env r id b w s post named known site same = ground (
  arith,
  eq_iff (header "X-Site-ID" r) "",
  eq_iff s.site_id (header "X-Site-ID" r),
  eq_iff b.session_id id,
)

write_metrics_lem :
    (env : Env) (r : Request) (id : String) (s : ActiveSession) (new : Dict Value) (w : World)
    → (update_session_metrics id new w.sessions).1 ≡ ok tt
    → write_metrics env r id s new w
      ≡ accept env r id s (record w { sessions = (update_session_metrics id new w.sessions).0 })
unfolding write_metrics
write_metrics_lem env r id s new w e = rw (e, write_metrics) refl

store_batch-Merged :
    (env : Env) (r : Request) (id : String) (s : ActiveSession) (new : Dict Value) (w : World)
    → lookup id w.sessions ≡ some s
    → Distinct new
    → Distinct s.metrics
    → ((store_batch env r id s new w).response.status ≡ 202)
      × ((store_batch env r id s new w).job
          ≡ some (record { session_id = id; ip = s.ip; user_agent = s.user_agent }))
      × Merged s new (lookup id (store_batch env r id s new w).world.sessions)
unfolding store_batch
store_batch-Merged env r id s [] w e d ds = (refl, refl, (s.metrics, e, λ k. unfold lookup in refl))
store_batch-Merged env r id s (m ∷ ms) w e d ds =
    let new = merge s.metrics (m ∷ ms) in
    let written = update_session_metrics_lem id new w.sessions s e in
    let stored =
      (ap (λ x. write_metrics env r id s (merge (known_metrics x) (m ∷ ms)) w)
          (get_session_metrics-some id w.sessions s e)
        ∙ write_metrics_lem env r id s new w written.1) in
    rw stored (refl, refl, (merge s.metrics new, written.0, merge_twice s.metrics (m ∷ ms) d ds))

-- A batch that is accepted: a request other than a preflight, for a session that is there, with no
-- site named or with the session's own, whose batch names the session. The answer has status 202,
-- an analysis is started with the address and the user agent on record, and the batch's metrics are
-- the session's from then on, in front of the old ones, while the rest of the session is kept. The
-- keys of a metrics map are distinct.
pub submit_behavior_accepted :
    (env : Env) (r : Request) (id : String) (b : BehaviorBatch) (w : World) (s : ActiveSession)
    → (r.method == "OPTIONS") ≡ false
    → (id == "") ≡ false
    → lookup id w.sessions ≡ some s
    → (header "X-Site-ID" r ≡ "") ⊎ (header "X-Site-ID" r ≡ s.site_id)
    → b.session_id ≡ id
    → Distinct b.metrics
    → Distinct s.metrics
    → ((submit_behavior env r id (parsed b) w).response.status ≡ 202)
      × ((submit_behavior env r id (parsed b) w).job
          ≡ some (record { session_id = id; ip = s.ip; user_agent = s.user_agent }))
      × Merged s b.metrics (lookup id (submit_behavior env r id (parsed b) w).world.sessions)
submit_behavior_accepted env r id b w s post named known site same d ds =
    rw (submit_behavior_lem env r id b w s post named known site same)
      (store_batch-Merged env r id s b.metrics w known d ds)

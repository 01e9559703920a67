-- ===== src/Behavior/Tests.antt =====
-- Behaviour batches and analyses on demand on a concrete world.
use human_guard.Base.{leb, ◌||◌, ◌≡◌, refl, inr, some, [], ◌∷◌, arith, lookup}
use human_guard.Value.{num}
use human_guard.Http.{int, flag, write_json, parsed}
use human_guard.Detector.Effects.{settled}
use human_guard.Detector.FreshRisk.{fresh_risk}
use human_guard.Behavior.{BehaviorBatch, submit_behavior, trigger_analysis, replied}
use human_guard.Behavior.Submissions.{Merged, submit_behavior_accepted}
use human_guard.Behavior.OnDemand.{trigger_analysis_lem}
use human_guard.Samples.{env, visitor, visitor_id, world, returning}

abbrev batch : BehaviorBatch
batch = record { session_id = visitor_id; metrics = ("clicks", num 3) ∷ [] }

submit_behavior_accepted_example :
    ((submit_behavior env returning visitor_id (parsed batch) world).response.status ≡ 202)
    × ((submit_behavior env returning visitor_id (parsed batch) world).job
        ≡ some
            (record { session_id = visitor_id; ip = visitor.ip; user_agent = visitor.user_agent }))
    × Merged visitor batch.metrics (
        lookup visitor_id
          (submit_behavior env returning visitor_id (parsed batch) world).world.sessions)
unfolding lookup
submit_behavior_accepted_example =
    submit_behavior_accepted env returning visitor_id batch world visitor refl refl refl (inr refl)
      refl (tt, tt) tt

trigger_analysis_lem_example :
    ((trigger_analysis env visitor_id "owner" world).1
      ≡ replied (
          write_json [] [] 200 (
            ("risk_score", int (fresh_risk env visitor_id visitor "" "" world))
            ∷ (
              "is_blocked",
              flag (leb 80 (fresh_risk env visitor_id visitor "" "" world) || visitor.is_blocked),
            )
            ∷ [])))
    × (lookup visitor_id (trigger_analysis env visitor_id "owner" world).0.sessions
        ≡ some (settled (fresh_risk env visitor_id visitor "" "" world) visitor))
unfolding lookup
trigger_analysis_lem_example =
    trigger_analysis_lem env visitor_id "owner" world visitor (omega arith) refl refl

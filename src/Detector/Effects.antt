-- ===== src/Detector/Effects.antt =====
-- What an analysis leaves behind: the score, the block and the entry on the blacklist.
use mathlib.Core.Option
use human_guard.Base.{
  ℕ, String, ◌≡◌, refl, ap, ◌∙◌, true, false, none, some, arith, ◌==◌, eq_iff, eq_refl, leb,
  if◌then◌else◌, lookup, insert,
}
use human_guard.Errors.{ok}
use human_guard.Clock.{Time}
use human_guard.Session.{
  ActiveSession, Sessions, get_session, modify, block_session, update_risk_score,
}
use human_guard.Session.Effects.{lookup-modify}
use human_guard.Sites.{
  select_blacklist, Faults, BlacklistEntry, is_blacklisted, add_to_blacklist, upsert_blacklist,
}
use human_guard.Sites.Blacklist.{HasUniquePairs, is_blacklisted-add_to_blacklist}
use human_guard.World.{World, Env}
use human_guard.Detector.{Detector, punish, analyzed, conclude, auto_reason}

abbrev pub with_score : ℕ → ActiveSession → ActiveSession
with_score n s = record s { risk_score = n }

abbrev pub blocked : ActiveSession → ActiveSession
blocked s = record s { is_blocked = true; is_active = false }

-- The session after a final risk has been stored and acted on.
abbrev pub settled : ℕ → ActiveSession → ActiveSession
settled final s =
    if leb 80 final
    then record s { risk_score = final; is_blocked = true; is_active = false }
    else record s { risk_score = final }

pub get_session-some :
    (id : String) (m : Sessions) (s : ActiveSession)
    → lookup id m ≡ some s
    → get_session id m ≡ ok s
unfolding get_session
get_session-some id m s e = rw (e, get_session)

lookup-update_risk_score :
    (id j : String) (n : ℕ) (m : Sessions)
    → lookup j (update_risk_score id n m).0
      ≡ (if id == j then Option.map (with_score n) (lookup j m) else lookup j m)
unfolding update_risk_score
lookup-update_risk_score id j n m = lookup-modify id j _ m

update_risk_score-some :
    (id : String) (n : ℕ) (m : Sessions) (s : ActiveSession)
    → lookup id m ≡ some s
    → (update_risk_score id n m).1 ≡ ok tt
unfolding update_risk_score modify
update_risk_score-some id n m s e = rw (e, modify)

lookup-block_session :
    (id j : String) (m : Sessions)
    → lookup j (block_session id m).0
      ≡ (if id == j then Option.map blocked (lookup j m) else lookup j m)
unfolding block_session
lookup-block_session id j m = lookup-modify id j _ m

abbrev pub auto_entry : Env → ℕ → ActiveSession → BlacklistEntry
auto_entry env final s = record {
  id = "";
  site_id = s.site_id;
  ip = s.ip;
  reason = auto_reason env final;
  created_at = 0;
  expires_at = none;
}

punish-some :
    (env : Env) (id : String) (final : ℕ) (w : World) (s : ActiveSession)
    → lookup id w.sessions ≡ some s
    → punish env id final w ≡ record {
      sessions = (block_session id w.sessions).0;
      db = (add_to_blacklist env.faults env.now env.fresh (auto_entry env final s) w.db).0;
    }
unfolding punish get_session
punish-some env id final w s e = rw (e, punish, get_session)

module _ (env : Env) (id : String) (final : ℕ) (w : World) (d : Detector) (s : ActiveSession)
    (known : lookup id w.sessions ≡ some s) where
  abbrev pub scored : World
  scored = record w { sessions = (update_risk_score id final w.sessions).0 }

  scored_known : lookup id scored.sessions ≡ some (record s { risk_score = final })
  scored_known = lookup-update_risk_score id id final w.sessions ∙ rw (eq_refl id, known) refl

  pub conclude_lem : conclude env id final w d ≡ record {
    detector = record d { cache = insert id (record { score = final; ts = env.now }) d.cache };
    world = if leb 80 final then punish env id final scored else scored;
    outcome = analyzed;
  }
  unfolding conclude
  conclude_lem = rw (update_risk_score-some id final w.sessions s known, conclude) refl

  pub lookup-conclude :
      (j : String)
      → lookup j (conclude env id final w d).world.sessions
        ≡ (if id == j then some (settled final s) else lookup j w.sessions)
  lookup-conclude j = ground (
    arith,
    ap (λ a. lookup j a.world.sessions) conclude_lem,
    ap (λ u. lookup j u.sessions)
        (punish-some env id final scored (with_score final s) scored_known),
    lookup-block_session id j scored.sessions,
    lookup-update_risk_score id j final w.sessions,
    eq_iff id j,
    known,
    ap (λ k. lookup k w.sessions) {x = id} {y = j},
  )

  pub conclude_blacklists :
      (check : Faults) (later : Time)
      → leb 80 final ≡ true
      → env.faults upsert_blacklist ≡ false
      → check select_blacklist ≡ false
      → HasUniquePairs w.db.blacklist
      → is_blacklisted check later s.site_id s.ip (conclude env id final w d).world.db ≡ ok true
  conclude_blacklists check later high up sel u =
      let s' = with_score final s in
      ground (
        arith,
        ap (λ a. is_blacklisted check later s.site_id s.ip a.world.db) conclude_lem,
        ap (λ v. is_blacklisted check later s.site_id s.ip v.db)
            (punish-some env id final scored s' scored_known),
        is_blacklisted-add_to_blacklist env.faults check env.now later env.fresh s.site_id s.ip
            (auto_entry env final s') w.db up u,
        eq_refl s.site_id,
        eq_refl s.ip,
      )

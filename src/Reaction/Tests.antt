-- ===== src/Reaction/Tests.antt =====
-- The reaction over the program's own store of sessions.
use human_guard.Base.{
  ℕ, String, ◌≡◌, refl, ◌∙◌, ◌⊎◌, inl, inr, true, false, some, arith, eq_refl, Option-cases, lookup,
}
use human_guard.Errors.{ok}
use human_guard.Session.{ActiveSession, Sessions, block_session, mark_captcha_shown, modify}
use human_guard.Session.Effects.{lookup-modify}
use human_guard.Reaction.{
  SessionInfo, Store, default_reaction_config, react, react_to_level, get_risk_level,
  handle_high_risk,
}
use human_guard.Reaction.Blocks.{KeepsBlocks, Refuses, react_blocks}
use human_guard.Samples.{visitor_id, store}

-- The blacklist stands in the tables and not here.
abbrev memory : Store Sessions
memory = record {
  block_session = block_session;
  mark_captcha_shown = mark_captcha_shown;
  add_to_blacklist = λ site ip reason duration st. (st, ok tt);
}

abbrev IsMarked : String → Sessions → Type 0
IsMarked id m = (s : ActiveSession) × (lookup id m ≡ some s) × (s.is_blocked ≡ true)

memory_marks :
    (id : String) (m : Sessions)
    → (block_session id m).1 ≡ ok tt
    → IsMarked id (block_session id m).0
unfolding block_session modify
memory_marks id m done = elim (Option-cases (lookup id m)) [
  | inl absent ↦ ground arith
  | inr (s, there) ↦
      let blocked = λ (t : ActiveSession). record t { is_blocked = true; is_active = false } in
      (blocked s, lookup-modify id id blocked m ∙ rw (eq_refl id, there) refl, refl)
]

memory-KeepsBlocks : KeepsBlocks memory IsMarked
memory-KeepsBlocks = record {
  block_marks = memory_marks;
  blacklist_keeps = λ id site ip reason duration st h. h;
}

abbrev robot : SessionInfo
robot = record {
  id = visitor_id;
  site_id = "shop";
  ip = "198.51.100.7";
  risk_score = 90;
  is_blocked = false;
  captcha_shown = false;
}

abbrev ninety : ℕ → String
ninety n = "90"

react_blocks_example :
    (robot.is_blocked ≡ true)
    ⊎ Refuses memory robot.id store
    ⊎ IsMarked robot.id (react ninety memory default_reaction_config robot store).0
unfolding react react_to_level get_risk_level handle_high_risk
react_blocks_example =
    react_blocks ninety memory IsMarked memory-KeepsBlocks default_reaction_config robot store refl

-- ===== src/Reaction/Levels.antt =====
-- The reaction to a risk score under the default configuration, against the answer that the check
-- endpoint gives for it.
use human_guard.Base.{ℕ, String, ◌≡◌, refl, inl, inr, false, ◌==◌, leb, Bool-cases}
use human_guard.Reaction.{
  SessionInfo, Store, default_reaction_config, get_risk_level, handle_low_risk, handle_medium_risk,
  handle_high_risk, react_to_level, react,
}
use human_guard.Visitor.{action_for}

-- With the default configuration, the reaction to a session that is not blocked names the action
-- that `CheckRequest` answers for the same risk score, and it blocks, or asks for a CAPTCHA, exactly
-- when that action is "block", or "captcha".
pub react-action_for :
    {S : Type 0} (show_int : ℕ → String) (store : Store S) (s : SessionInfo) (st : S)
    → s.is_blocked ≡ false
    → ((react show_int store default_reaction_config s st).1.action ≡ action_for s.risk_score)
      × ((react show_int store default_reaction_config s st).1.blocked
          ≡ action_for s.risk_score == "block")
      × ((react show_int store default_reaction_config s st).1.captcha
          ≡ action_for s.risk_score == "captcha")
unfolding react react_to_level get_risk_level handle_low_risk handle_medium_risk handle_high_risk
react-action_for show_int store s st fresh = elim (Bool-cases (leb 80 s.risk_score)) [
  | inl high ↦
      rw (high, react, fresh, get_risk_level, react_to_level, handle_high_risk) (refl, refl, refl)
  | inr lower ↦ elim (Bool-cases (leb 50 s.risk_score)) [
    | inl medium ↦
        rw (lower, medium, react, fresh, get_risk_level, react_to_level, handle_medium_risk)
          (refl, refl, refl)
    | inr low ↦
        rw (lower, low, react, fresh, get_risk_level, react_to_level, handle_low_risk)
          (refl, refl, refl)
  ]
]

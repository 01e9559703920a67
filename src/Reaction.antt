-- ===== src/Reaction.antt =====
-- backend/reaction/reaction.go: what is done about a session for its risk score.
-- The service's store is a parameter: a record of the calls that `React` makes of it, each giving the
-- store after it and its result. The result of a call is only logged.
pub mod Levels
pub mod Blocks
mod Tests
use Prim.Native.String.{◌++◌}
use human_guard.Base.{
  ◌%◌, ℕ, zero, suc, ◌+◌, ◌-◌, ◌*◌, ◌≤◌, ◌<◌, String, ◌≡◌, refl, sym, ap, ◌∙◌, ◌≢◌, ◌↔◌, ◌⊎◌, inl,
  inr, Bool, true, false, not, ◌&&◌, ◌||◌, Option, none, some, List, [], ◌∷◌, map, arith, ◌==◌,
  eq_iff, eq_refl, ltb, leb, eqb, if◌then◌else◌, Bool-cases, Option-cases, length, keep, count_if,
  any_of, All, Dict, lookup, insert, delete, adjust,
}
use human_guard.Errors.{Result}
use human_guard.Clock.{minute}

pub data RiskLevel : Type 0 where
  risk_low risk_medium risk_high : RiskLevel

pub record ReactionConfig : Type 0 where
  pub enabled : Bool
  pub low_risk_action : String
  pub medium_risk_action : String
  pub high_risk_action : String
  pub block_duration_minutes : ℕ
  pub block_duration_permanent : Bool
  pub block_message : String
  pub add_to_blacklist : Bool
  pub blacklist_duration_minutes : ℕ
  pub captcha_provider : String
  pub captcha_sitekey : String

abbrev pub default_reaction_config : ReactionConfig
default_reaction_config = record {
  enabled = true;
  low_risk_action = "allow";
  medium_risk_action = "captcha";
  high_risk_action = "block";
  block_duration_minutes = 60;
  block_duration_permanent = false;
  block_message = "Access denied. Your activity appears to be automated.";
  add_to_blacklist = true;
  blacklist_duration_minutes = 1440;
  captcha_provider = "hcaptcha";
  captcha_sitekey = "10000000-ffff-ffff-ffff-000000000001";
}

pub record SessionInfo : Type 0 where
  pub id : String
  pub site_id : String
  pub ip : String
  pub risk_score : ℕ
  pub is_blocked : Bool
  pub captcha_shown : Bool

pub record ReactionResult : Type 0 where
  pub action : String
  pub blocked : Bool
  pub captcha : Bool
  pub message : String
  pub blacklist : Bool
  pub captcha_sitekey : String

-- The calls of `Store` that the service makes: by session, and by site, address, reason and duration.
pub record Store (S : Type 0) : Type 0 where
  pub block_session : String → S → S × Result (Unit {0})
  pub mark_captcha_shown : String → S → S × Result (Unit {0})
  pub add_to_blacklist : String → String → String → ℕ → S → S × Result (Unit {0})

abbrev pub just : String → ReactionResult
just action = record {
  action = action;
  blocked = false;
  captcha = false;
  message = "";
  blacklist = false;
  captcha_sitekey = "";
}

abbrev pub block_result : ReactionConfig → Bool → ReactionResult
block_result cfg blacklist = record (just "block") {
  blocked = true;
  message = cfg.block_message;
  blacklist = blacklist;
}

abbrev pub captcha_result : ReactionConfig → ReactionResult
captcha_result cfg = record (just "captcha") {
  captcha = true;
  captcha_sitekey = cfg.captcha_sitekey;
}

unfoldable pub get_risk_level : ℕ → RiskLevel
get_risk_level score =
    if leb 80 score then risk_high else if leb 50 score then risk_medium else risk_low

-- `time.Duration(minutes) * time.Minute` in 64 bits; a permanent block has the duration 0.
abbrev pub blacklist_duration : ReactionConfig → ℕ
blacklist_duration cfg =
    if cfg.block_duration_permanent
    then 0
    else cfg.blacklist_duration_minutes * minute % 18_446_744_073_709_551_616

module _ {S : Type 0} (show_int : ℕ → String) (store : Store S) (cfg : ReactionConfig) where
  unfoldable pub handle_low_risk : S → S × ReactionResult
  handle_low_risk st = (st, just cfg.low_risk_action)

  unfoldable pub handle_medium_risk : SessionInfo → S → S × ReactionResult
  handle_medium_risk s st =
      if cfg.medium_risk_action == "captcha"
      then ((store.mark_captcha_shown s.id st).0, captcha_result cfg)
      else if cfg.medium_risk_action == "block"
      then ((store.block_session s.id st).0, block_result cfg false)
      else (st, just "allow")

  abbrev pub high_risk_reason : SessionInfo → String
  high_risk_reason s = "High risk score: " ++ show_int s.risk_score

  unfoldable pub handle_high_risk : SessionInfo → S → S × ReactionResult
  handle_high_risk s st =
      let blocked = (store.block_session s.id st).0 in
      if cfg.add_to_blacklist
      then (
        (store.add_to_blacklist s.site_id s.ip (high_risk_reason s) (blacklist_duration cfg)
            blocked).0,
        block_result cfg true,
      )
      else (blocked, block_result cfg false)

  unfoldable pub react_to_level : RiskLevel → SessionInfo → S → S × ReactionResult
  react_to_level risk_high s st = handle_high_risk s st
  react_to_level risk_medium s st = handle_medium_risk s st
  react_to_level risk_low s st = handle_low_risk st

  unfoldable pub react : SessionInfo → S → S × ReactionResult
  react s st =
      if not cfg.enabled
      then (st, just "allow")
      else if s.is_blocked
      then (st, block_result cfg false)
      else react_to_level (get_risk_level s.risk_score) s st

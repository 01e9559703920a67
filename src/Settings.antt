-- ===== src/Settings.antt =====
-- backend/storage/settings.go, and the settings types and `DefaultWeights` of
-- backend/storage/storage.go. The weights are float64, so they stand as codes of `FloatOps`.
use human_guard.Base.{ℕ, Bool, true, false, String, Option, none, some}
use human_guard.Value.{FloatOps}

pub record CollectorSettings : Type 0 where
  pub enabled : Bool
  pub mouse_tracking : Bool
  pub click_tracking : Bool
  pub scroll_tracking : Bool
  pub keystroke_tracking : Bool
  pub fingerprint_enabled : Bool

pub record WeightsSettings : Type 0 where
  pub ip_reputation : ℕ
  pub headless : ℕ
  pub rate_limit : ℕ
  pub behavior_anomaly : ℕ
  pub fingerprint_change : ℕ

pub record AnalyzerThreshold : Type 0 where
  pub low : ℕ
  pub medium : ℕ
  pub high : ℕ

pub record AnalyzerSettings : Type 0 where
  pub enabled : Bool
  pub rate_limiting : Bool
  pub pattern_analysis : Bool
  pub headless_detection : Bool
  pub thresholds : AnalyzerThreshold
  pub weights : WeightsSettings

pub record ReactionSettings : Type 0 where
  pub enabled : Bool
  pub low_risk_action : String
  pub medium_risk_action : String
  pub high_risk_action : String
  pub block_duration : ℕ
  pub captcha_provider : String

pub record ModuleSettings : Type 0 where
  pub collector : CollectorSettings
  pub analyzer : AnalyzerSettings
  pub reaction : ReactionSettings

abbrev pub default_weights : FloatOps → WeightsSettings
default_weights f = record {
  ip_reputation = f.of_int 35;
  headless = f.of_int 25;
  rate_limit = f.of_int 20;
  behavior_anomaly = f.of_int 15;
  fingerprint_change = f.of_int 5;
}

-- Go's zero value, from which `json.Unmarshal` starts: what a document leaves out stays zero.
abbrev pub zero_weights : FloatOps → WeightsSettings
zero_weights f = record {
  ip_reputation = f.of_int 0;
  headless = f.of_int 0;
  rate_limit = f.of_int 0;
  behavior_anomaly = f.of_int 0;
  fingerprint_change = f.of_int 0;
}

abbrev pub zero_settings : FloatOps → ModuleSettings
zero_settings f = record {
  collector = record {
    enabled = false;
    mouse_tracking = false;
    click_tracking = false;
    scroll_tracking = false;
    keystroke_tracking = false;
    fingerprint_enabled = false;
  };
  analyzer = record {
    enabled = false;
    rate_limiting = false;
    pattern_analysis = false;
    headless_detection = false;
    thresholds = record { low = 0; medium = 0; high = 0 };
    weights = zero_weights f;
  };
  reaction = record {
    enabled = false;
    low_risk_action = "";
    medium_risk_action = "";
    high_risk_action = "";
    block_duration = 0;
    captcha_provider = "";
  };
}

-- `getDefaultSettings` of the package `storage`.
unfoldable pub get_default_settings : FloatOps → ModuleSettings
get_default_settings f = record {
  collector = record {
    enabled = true;
    mouse_tracking = true;
    click_tracking = true;
    scroll_tracking = false;
    keystroke_tracking = false;
    fingerprint_enabled = false;
  };
  analyzer = record {
    enabled = true;
    rate_limiting = true;
    pattern_analysis = false;
    headless_detection = true;
    thresholds = record { low = 30; medium = 60; high = 80 };
    weights = zero_weights f;
  };
  reaction = record {
    enabled = true;
    low_risk_action = "";
    medium_risk_action = "captcha";
    high_risk_action = "block";
    block_duration = 60;
    captcha_provider = "";
  };
}

-- The column `settings`: NULL or empty, a text that is no settings document, the document `{}`, or
-- the document that `json.Marshal` writes.
pub data Column : Type 0 where
  absent malformed empty_object : Column
  document : ModuleSettings → Column

-- `json.Marshal` and `json.Unmarshal` on these forms.
abbrev pub marshal : ModuleSettings → Column
marshal s = document s

abbrev pub unmarshal : FloatOps → Column → Option ModuleSettings
unmarshal f absent = none
unmarshal f malformed = none
unmarshal f empty_object = some (zero_settings f)
unmarshal f (document s) = some s

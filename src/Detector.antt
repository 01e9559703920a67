-- ===== src/Detector.antt =====
-- backend/detector/detector.go: the risk of a visitor session.
-- The detector's two `sync.Map`s are dictionaries; log lines are left out, but for the slice
-- `sessionID[:8]` in them, which panics on an identifier of fewer than 8 bytes.
pub mod Scores
pub mod Deep
pub mod Headless
pub mod RateWindow
pub mod DeepRisk
pub mod Effects
pub mod FreshRisk
mod Tests
use Prim.Native.String.{◌++◌}
use human_guard.Base.{
  ℕ, ◌+◌, ◌*◌, String, Bool, true, false, not, Option, none, some, List, [], Dict, lookup, insert,
  keep_values, leb, ltb, if◌then◌else◌, codes, byte_len, zero, suc, ◌-◌, ◌≤◌, ◌<◌, ◌≡◌, refl, sym,
  ap, ◌∙◌, ◌≢◌, ◌↔◌, ◌⊎◌, inl, inr, ◌&&◌, ◌||◌, ◌∷◌, map, arith, ◌==◌, eq_iff, eq_refl, eqb,
  Bool-cases, Option-cases, length, keep, count_if, any_of, All, delete, adjust,
}
use human_guard.Errors.{Error, Result, ok, err}
use human_guard.Clock.{Time, second, since}
use human_guard.Settings.{ModuleSettings, AnalyzerSettings}
use human_guard.Session.{ActiveSession, Sessions, get_session, block_session, update_risk_score}
use human_guard.Sites.{BlacklistEntry, get_site_settings, is_blacklisted, add_to_blacklist}
use human_guard.World.{World, Env}
use Scores.{headless_score, rate_limit_score}
use Deep.{deep_filter}

pub record CachedRisk : Type 0 where
  pub score : ℕ
  pub ts : Time

pub record Detector : Type 0 where
  pub cache : Dict CachedRisk
  pub ttl : ℕ
  pub request_counts : Dict (List Time)

-- `New`. The handlers make a detector for each request.
abbrev pub new_detector : Detector
new_detector = record { cache = []; ttl = 10 * second; request_counts = [] }

pub data Reason : Type 0 where
  cached no_session ip_blacklisted high_risk_from_prefilter need_deep_analysis : Reason

pub record PrefilterResult : Type 0 where
  pub risk : ℕ
  pub should_block : Bool
  pub need_deep : Bool
  pub reason : Reason

-- The cache's answer: an entry younger than the time to live.
unfoldable pub cached_result : Time → Detector → String → Option PrefilterResult
cached_result now d id = elim (lookup id d.cache) [
  | none ↦ none
  | some c ↦
      if ltb (since now c.ts) d.ttl
      then some (record {
        risk = c.score;
        should_block = leb 80 c.score;
        need_deep = false;
        reason = cached;
      })
      else none
]

abbrev pub verdict : ℕ → PrefilterResult
verdict risk =
    if leb 70 risk
    then record {
      risk = risk;
      should_block = leb 80 risk;
      need_deep = false;
      reason = high_risk_from_prefilter;
    }
    else record { risk = risk; should_block = false; need_deep = true; reason = need_deep_analysis }

abbrev pub blacklisted_result : PrefilterResult
blacklisted_result = record {
  risk = 100;
  should_block = true;
  need_deep = false;
  reason = ip_blacklisted;
}

-- `err == nil && blacklisted`.
abbrev pub is_listed : Result Bool → Bool
is_listed (ok b) = b
is_listed (err e) = false

-- The scores of the user agent and of the rate, as far as the site's settings ask for them.
unfoldable pub score_request : Env → AnalyzerSettings → String → String → Detector → Detector × ℕ
score_request env a ip ua d =
    let hs = if a.headless_detection then headless_score env.lower ua else 0 in
    let (counts, rls) = rate_limit_score env.now ip d.request_counts in
    if a.rate_limiting then (record d { request_counts = counts }, hs + rls) else (d, hs)

-- `Prefilter` on a session that the cache does not answer for.
unfoldable pub prefilter_session :
    Env → ActiveSession → String → String → World → Detector → Detector × PrefilterResult
prefilter_session env s ip ua w d =
    let settings = get_site_settings env.floats env.faults s.site_id w.db in
    if is_listed (is_blacklisted env.faults env.now s.site_id ip w.db)
    then (d, blacklisted_result)
    else let (d', risk) = score_request env settings.analyzer ip ua d in (d', verdict risk)

-- `GetSession` of the store in memory never returns nil without an error, so the reason
-- `no_session` is never given.
unfoldable pub prefilter :
    Env → String → String → String → World → Detector → Detector × Result PrefilterResult
prefilter env id ip ua w d = elim (cached_result env.now d id) [
  | some r ↦ (d, ok r)
  | none ↦ elim (get_session id w.sessions) [
    | err e ↦ (d, err e)
    | ok s ↦ let (d', r) = prefilter_session env s ip ua w d in (d', ok r)
  ]
]

abbrev pub auto_reason : Env → ℕ → String
auto_reason env final = "Auto-blocked by detector with risk score: " ++ env.show_int final

-- The session is blocked and its address put on the site's blacklist; failures are only logged.
unfoldable pub punish : Env → String → ℕ → World → World
punish env id final w = elim (get_session id w.sessions) [
  | err e ↦ w
  | ok s ↦ record {
    sessions = (block_session id w.sessions).0;
    db =
        (add_to_blacklist env.faults env.now env.fresh
          (record {
            id = "";
            site_id = s.site_id;
            ip = s.ip;
            reason = auto_reason env final;
            created_at = 0;
            expires_at = none;
          })
          w.db).0;
  }
]

pub data Outcome : Type 0 where
  panicked : Outcome
  failed : Error → Outcome
  analyzed : Outcome

pub record Analysis : Type 0 where
  pub detector : Detector
  pub world : World
  pub outcome : Outcome

-- The end of `AnalyzeAndUpdate`: the score is stored, then cached, then acted on.
unfoldable pub conclude : Env → String → ℕ → World → Detector → Analysis
conclude env id final w d =
    let (sessions, stored) = update_risk_score id final w.sessions in
    elim stored [
      | err e ↦ record { detector = d; world = w; outcome = failed e }
      | ok _ ↦
          let w' = record w { sessions = sessions } in
          record {
            detector = record d {
              cache = insert id (record { score = final; ts = env.now }) d.cache;
            };
            world = if leb 80 final then punish env id final w' else w';
            outcome = analyzed;
          }
    ]

abbrev pub final_risk : Env → String → World → PrefilterResult → ℕ
final_risk env id w r =
    if r.need_deep then deep_filter env.floats env.lower id r.risk w.sessions else r.risk

abbrev pub is_cached : Reason → Bool
is_cached cached = true
is_cached _ = false

unfoldable pub analyze_result : Env → String → World → Detector → Result PrefilterResult → Analysis
analyze_result env id w d (err e) = record { detector = d; world = w; outcome = failed e }
analyze_result env id w d (ok r) =
    if is_cached r.reason
    then record { detector = d; world = w; outcome = analyzed }
    else conclude env id (final_risk env id w r) w d

unfoldable pub analyze_and_update : Env → String → String → String → World → Detector → Analysis
analyze_and_update env id ip ua w d =
    if ltb (byte_len (codes id)) 8
    then record { detector = d; world = w; outcome = panicked }
    else let (d', r) = prefilter env id ip ua w d in analyze_result env id w d' r

-- `CleanCache` and `GetCachedRisk`.
unfoldable pub clean_cache : Time → Detector → Detector
clean_cache now d = record d {
  cache = keep_values (λ c. not (ltb (d.ttl * 2) (since now c.ts))) d.cache;
}

unfoldable pub get_cached_risk : String → Detector → Option ℕ
get_cached_risk id d = elim (lookup id d.cache) [ none ↦ none | some c ↦ some c.score ]

-- ===== src/RateLimiter/Tests.antt =====
-- The rate limiter over buckets that are never filled again.
use human_guard.Base.{
  All, ℕ, ◌-◌, String, ◌≡◌, refl, true, false, List, [], ◌∷◌, ◌==◌, leb, lookup, insert, adjust,
}
use human_guard.RateLimiter.{
  Buckets, LimitedVisitor, LimitEnv, limit_key, take_token, get_limiter, rule_for,
}
use human_guard.RateLimiter.Keys.{IsAddress, IsPath}
use human_guard.RateLimiter.Isolation.{
  Hit, answers_for, bucket_run, times_of, answers_for-bucket_run,
}
use human_guard.Samples.{floats, noon}

abbrev drained : Buckets ℕ
drained = record {
  new_limiter = λ limit burst. burst;
  allow = λ now n. (n - 1, leb 1 n);
  burst_of = λ n. n;
}

abbrev env : LimitEnv ℕ
env = record {
  buckets = drained;
  floats = floats;
  show_int = λ n. "20";
  rules = record { matches = λ path. path == "/api/login"; limit = 1; burst = 2 } ∷ [];
}

abbrev key : String
key = limit_key "192.0.2.1" "/api/login"

abbrev hit : String → Hit
hit ip = record { at = noon; ip = ip; path = "/api/login" }

-- Two addresses in turn.
abbrev traffic : List Hit
traffic = hit "192.0.2.1" ∷ hit "192.0.2.2" ∷ hit "192.0.2.1" ∷ hit "192.0.2.1" ∷ []

abbrev seen_once : LimitedVisitor ℕ
seen_once = record { limiter = 2; last_seen = noon; rule_key = "/api/login" }

third_is_refused : answers_for env "192.0.2.1" "/api/login" traffic [] ≡ true ∷ true ∷ false ∷ []
unfolding answers_for take_token get_limiter rule_for lookup insert adjust
third_is_refused = refl

traffic_plain : All (λ h. IsAddress h.ip × IsPath h.path) traffic
traffic_plain = (
  (refl, ("api/login", refl)),
  ((refl, ("api/login", refl)), ((refl, ("api/login", refl)), ((refl, ("api/login", refl)), tt))),
)

answers_for-bucket_run_example :
    answers_for env "192.0.2.1" "/api/login" traffic ((key, seen_once) ∷ [])
    ≡ bucket_run env 2 (times_of env "192.0.2.1" "/api/login" traffic)
unfolding lookup
answers_for-bucket_run_example =
    answers_for-bucket_run env "192.0.2.1" "/api/login" traffic ((key, seen_once) ∷ []) refl
      ("api/login", refl) traffic_plain

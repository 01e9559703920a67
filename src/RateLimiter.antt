-- ===== src/RateLimiter.antt =====
-- backend/middleware/ratelimit.go: one token bucket for each address and path.
-- The buckets of golang.org/x/time/rate are a parameter, `Buckets`, and so are the regular
-- expressions of the rules. A bucket is shared by its pointer: what `Allow` does to it stands in the
-- table. The handler behind the middleware is not looked at.
pub mod Keys
pub mod Isolation
mod Tests
use Prim.Native.String.{◌++◌ as concat}
use human_guard.Base.{
  codes, has_prefix, keep_values, ℕ, zero, suc, ◌+◌, ◌-◌, ◌*◌, ◌≤◌, ◌<◌, String, ◌≡◌, refl, sym, ap,
  ◌∙◌, ◌≢◌, ◌↔◌, ◌⊎◌, inl, inr, Bool, true, false, not, ◌&&◌, ◌||◌, Option, none, some, List, [],
  ◌∷◌, map, arith, ◌==◌, eq_iff, eq_refl, ltb, leb, eqb, if◌then◌else◌, Bool-cases, Option-cases,
  length, keep, count_if, any_of, All, Dict, lookup, insert, delete, adjust,
}
use human_guard.Value.{FloatOps}
use human_guard.Clock.{Time, minute, since}
use human_guard.Http.{Request, Response, text, header, get_real_ip_limiter}

-- `NewLimiter` by a rate, a float64, and a burst; `Allow`, and `Burst`.
pub record Buckets (L : Type 0) : Type 0 where
  pub new_limiter : ℕ → ℕ → L
  pub allow : Time → L → L × Bool
  pub burst_of : L → ℕ

pub record Rule : Type 0 where
  pub matches : String → Bool
  pub limit : ℕ
  pub burst : ℕ

pub record LimitedVisitor (L : Type 0) : Type 0 where
  pub limiter : L
  pub last_seen : Time
  pub rule_key : String

-- What the limiter takes from outside.
pub record LimitEnv (L : Type 0) : Type 0 where
  pub buckets : Buckets L
  pub floats : FloatOps
  pub show_int : ℕ → String
  pub rules : List Rule

pub data Verdict : Type 0 where
  passed_on : Verdict
  limited : Response → Verdict

abbrev pub limit_key : String → String → String
limit_key ip path = concat ip (concat ":" path)

-- The first rule that matches, or else 100 a minute with a burst of 20.
unfoldable pub rule_for : FloatOps → List Rule → String → ℕ × ℕ
rule_for f [] path = (f.div (f.of_int 100) (f.of_int 60), 20)
rule_for f (r ∷ rs) path = if r.matches path then (r.limit, r.burst) else rule_for f rs path

module _ {L : Type 0} (env : LimitEnv L) where
  abbrev pub fresh_limiter : String → L
  fresh_limiter path =
      let (limit, burst) = rule_for env.floats env.rules path in env.buckets.new_limiter limit burst

  -- The table afterwards, and the bucket.
  unfoldable pub get_limiter :
      Time → String → String → Dict (LimitedVisitor L) → Dict (LimitedVisitor L) × L
  get_limiter now ip path m = elim (lookup (limit_key ip path) m) [
    | some v ↦ (adjust (limit_key ip path) (λ v. record v { last_seen = now }) m, v.limiter)
    | none ↦ (
      insert (limit_key ip path)
          (record { limiter = fresh_limiter path; last_seen = now; rule_key = path }) m,
      fresh_limiter path,
    )
  ]

  abbrev pub too_many : L → Response
  too_many l = record {
    status = 429;
    headers =
        ("X-RateLimit-Limit", env.show_int (env.buckets.burst_of l))
        ∷ ("X-RateLimit-Remaining", "0")
        ∷ ("Retry-After", "60")
        ∷ ("Content-Type", "application/json")
        ∷ [];
    cookies = [];
    body = ("error", text "Too many requests. Please try again later.") ∷ [];
  }

  unfoldable pub take_token :
      Time → String → String → Dict (LimitedVisitor L) → Dict (LimitedVisitor L) × Verdict
  unfolding get_limiter
  take_token now ip path m =
      let (seen, l) = get_limiter now ip path m in
      let (spent, granted) = env.buckets.allow now l in
      (
        adjust (limit_key ip path) (λ v. record v { limiter = spent }) seen,
        if granted then passed_on else limited (too_many spent),
      )

  -- `Middleware`.
  unfoldable pub limit_request :
      Time → Request → Dict (LimitedVisitor L) → Dict (LimitedVisitor L) × Verdict
  limit_request now r m =
      if header "Upgrade" r == "websocket"
      then (m, passed_on)
      else if r.path == "/health" || has_prefix (codes r.path) (codes "/metrics")
      then (m, passed_on)
      else take_token now (get_real_ip_limiter r) r.path m

-- One round of the background sweep.
unfoldable pub cleanup_visitors :
    {L : Type 0} → Time → Dict (LimitedVisitor L) → Dict (LimitedVisitor L)
cleanup_visitors now m = keep_values (λ v. not (ltb (10 * minute) (since now v.last_seen))) m

-- ===== src/Jwt.antt =====
-- backend/auth/auth.go, `JWTService`: tokens that say who a user is. Signing a set of claims, and
-- reading a token back while its signature holds and it has not expired, are parameters
-- (github.com/golang-jwt/jwt). The identifier that stands in for a missing session is an argument.
pub mod Samples
use human_guard.Base.{
  Char, lower_text, upper_text, byte_len, codes, has_prefix, Pairwise, All-weaken, All-keep, ℕ,
  zero, suc, ◌+◌, ◌-◌, ◌*◌, ◌≤◌, ◌<◌, String, ◌≡◌, refl, sym, ap, ◌∙◌, ◌≢◌, ◌↔◌, ◌⊎◌, inl, inr,
  Bool, true, false, not, ◌&&◌, ◌||◌, Option, none, some, List, [], ◌∷◌, ◌++◌, map, arith, ◌==◌,
  eq_iff, eq_refl, ltb, leb, eqb, if◌then◌else◌, Bool-cases, Option-cases, length, keep, count_if,
  any_of, All, Dict, lookup, insert, delete, adjust, ℤ, pos, negsuc, positive_part, ◌/◌, ◌%◌,
}
use human_guard.Clock.{Time, hour, unix}
use human_guard.Http.{get_or_empty}
use human_guard.Auth.{Claims}

-- The entries of `jwt.MapClaims` that this program writes; an instant is in seconds since 1970.
pub record MapClaims : Type 0 where
  pub user_id : Option String
  pub role : Option String
  pub sid : Option String
  pub exp : ℕ
  pub iat : ℕ

pub record JwtOps : Type 0 where
  pub sign : MapClaims → Option String
  pub parse : Time → String → Option MapClaims

-- What the library promises: a token that was signed is read back as its claims until it expires.
abbrev pub ReadsBack : JwtOps → Type 0
ReadsBack ops =
    (c : MapClaims) (token : String) (now : Time)
    → ops.sign c ≡ some token
    → unix now < c.exp
    → ops.parse now token ≡ some c

unfoldable pub generate_token : JwtOps → Time → String → String → Option String
generate_token ops now user_id role = ops.sign (record {
  user_id = some user_id;
  role = some role;
  sid = none;
  exp = unix (now + 24 * hour);
  iat = unix now;
})

unfoldable pub generate_token_with_session_id :
    JwtOps → Time → String → String → String → Option String
generate_token_with_session_id ops now user_id role session_id = ops.sign (record {
  user_id = some user_id;
  role = some role;
  sid = some session_id;
  exp = unix (now + 24 * hour);
  iat = unix now;
})

abbrev pub read_claims : String → MapClaims → Claims
read_claims fresh c = record {
  user_id = get_or_empty c.user_id;
  role = get_or_empty c.role;
  session_id = if get_or_empty c.sid == "" then fresh else get_or_empty c.sid;
}

unfoldable pub validate_token : JwtOps → Time → String → String → Option Claims
validate_token ops now fresh token = elim (ops.parse now token) [
  | none ↦ none
  | some c ↦ some (read_claims fresh c)
]

-- For a day after a token was made for a user, a role and a session, `ValidateToken` reads just these
-- back from it.
pub validate_token-generate_token_with_session_id :
    (ops : JwtOps) (now later : Time) (fresh user_id role session_id token : String)
    → ReadsBack ops
    → (session_id == "") ≡ false
    → unix later < unix (now + 24 * hour)
    → generate_token_with_session_id ops now user_id role session_id ≡ some token
    → validate_token ops later fresh token
      ≡ some (record { user_id = user_id; role = role; session_id = session_id })
unfolding generate_token_with_session_id validate_token
validate_token-generate_token_with_session_id ops now later fresh user_id role session_id token law
      named early made =
    rw (law _ token later made early, named, validate_token) refl

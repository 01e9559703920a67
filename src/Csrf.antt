-- ===== src/Csrf.antt =====
-- backend/middleware/csrf.go, with the exempt paths of backend/cmd/server/main.go: the double-submit
-- token. The token that `generateCSRFToken` draws is an argument. The handler behind the
-- middleware is not looked at: a request goes through or is refused.
pub mod Protection
pub mod Exemptions
mod Tests
use human_guard.Base.{
  codes, has_prefix, ℕ, zero, suc, ◌+◌, ◌-◌, ◌*◌, ◌≤◌, ◌<◌, String, ◌≡◌, refl, sym, ap, ◌∙◌, ◌≢◌,
  ◌↔◌, ◌⊎◌, inl, inr, Bool, true, false, not, ◌&&◌, ◌||◌, Option, none, some, List, [], ◌∷◌, ◌++◌,
  map, arith, ◌==◌, eq_iff, eq_refl, ltb, leb, eqb, if◌then◌else◌, Bool-cases, Option-cases, length,
  keep, count_if, any_of, All, Dict, lookup, insert, delete, adjust,
}
use human_guard.Http.{
  Request, Cookie, Response, header, cookie_value, seconds, strict, text, write_json,
}

abbrev pub csrf_cookie_name : String
csrf_cookie_name = "csrf_token"

abbrev pub csrf_cookie : String → Cookie
csrf_cookie token = record {
  name = csrf_cookie_name;
  value = token;
  path = "/";
  http_only = true;
  secure = true;
  same_site = strict;
  max_age = seconds (24 * 60 * 60);
}

-- The cookies that are set, and the token.
unfoldable pub ensure_csrf_cookie : String → Request → List Cookie × String
ensure_csrf_cookie drawn r =
    let sent = cookie_value csrf_cookie_name r in
    if not (sent == "") then ([], sent) else (csrf_cookie drawn ∷ [], drawn)

unfoldable pub csrf_token_handler : String → Request → Response
unfolding ensure_csrf_cookie
csrf_token_handler drawn r =
    let (cookies, token) = ensure_csrf_cookie drawn r in
    write_json [] cookies 200 (("csrf_token", text token) ∷ [])

pub data Gate : Type 0 where
  through : Gate
  forbidden : String → Gate

abbrev pub is_safe : Request → Bool
is_safe r =
    header "Upgrade" r == "websocket"
    || r.method == "GET"
    || r.method == "HEAD"
    || r.method == "OPTIONS"

abbrev pub is_exempt : List String → Request → Bool
is_exempt paths r = any_of (λ p. r.path == p || has_prefix (codes r.path) (codes p)) paths

-- `subtle.ConstantTimeCompare` is 1 exactly on equal texts.
unfoldable pub check_token : Request → Gate
check_token r =
    let cookie = cookie_value csrf_cookie_name r in
    let sent = header "X-CSRF-Token" r in
    if cookie == ""
    then forbidden "csrf token missing"
    else if sent == "" || not (cookie == sent)
    then forbidden "invalid csrf token"
    else through

unfoldable pub csrf_middleware : List String → Request → Gate
unfolding check_token
csrf_middleware exempt r =
    if is_safe r then through else if is_exempt exempt r then through else check_token r

abbrev pub exempt_paths : List String
exempt_paths = "/api/login" ∷ "/api/users" ∷ "/api/check" ∷ "/api/behavior/" ∷ "/api/auth/" ∷ []

-- ===== src/Http.antt =====
-- Requests and responses of net/http, as far as the handlers and the middleware look at them, and
-- `getRealIP` of backend/handlers/visitor_session.go and of backend/middleware/ratelimit.go.
use Prim.Native.Char.{code}
use human_guard.Base.{
  ℕ, String, Bool, not, ◌&&◌, ◌||◌, Option, none, some, List, [], ◌∷◌, ◌==◌, leb, eqb,
  if◌then◌else◌, Dict, lookup, insert,
}

pub record Request : Type 0 where
  pub method : String
  pub path : String
  pub headers : Dict String
  pub cookies : Dict String
  pub user_agent : String
  pub remote_addr : String
  -- What `net.SplitHostPort` reads off `remote_addr`.
  pub remote_host : Option String

pub data MaxAge : Type 0 where
  session_end expire_now : MaxAge
  seconds : ℕ → MaxAge

pub data SameSite : Type 0 where
  unset lax strict : SameSite

pub record Cookie : Type 0 where
  pub name : String
  pub value : String
  pub path : String
  pub http_only : Bool
  pub secure : Bool
  pub same_site : SameSite
  pub max_age : MaxAge

-- The values of a JSON object that a handler answers with.
pub data Field : Type 0 where
  text : String → Field
  int : ℕ → Field
  flag : Bool → Field

pub record Response : Type 0 where
  pub status : ℕ
  pub headers : Dict String
  pub cookies : List Cookie
  pub body : Dict Field

-- A body that the handler decodes: it cannot be read, it is empty, it is no JSON of the type asked
-- for, or it is a value of that type.
pub data Body {ℓ} (A : Type ℓ) : Type ℓ where
  unreadable empty malformed : Body A
  parsed : A → Body A

abbrev pub get_or_empty : Option String → String
get_or_empty none = ""
get_or_empty (some s) = s

-- `r.Header.Get`: the empty text for a header that is not there.
abbrev pub header : String → Request → String
header key r = get_or_empty (lookup key r.headers)

-- `r.Cookie(name)`, with its value empty when there is no such cookie.
abbrev pub cookie_value : String → Request → String
cookie_value name r = get_or_empty (lookup name r.cookies)

-- `writeJSON` after the headers and the cookies that the handler has set.
abbrev pub write_json : Dict String → List Cookie → ℕ → Dict Field → Response
write_json headers cookies status body = record {
  status = status;
  headers = insert "Content-Type" "application/json" headers;
  cookies = cookies;
  body = body;
}

abbrev pub error_body : String → Dict Field
error_body message = ("error", text message) ∷ []

abbrev pub error_json : ℕ → String → Response
error_json status message = write_json [] [] status (error_body message)

-- `unicode.IsSpace`.
abbrev pub is_space : ℕ → Bool
is_space c =
    leb 9 c && leb c 13
    || eqb c 32
    || eqb c 133
    || eqb c 160
    || eqb c 5760
    || leb 8192 c && leb c 8202
    || eqb c 8232
    || eqb c 8233
    || eqb c 8239
    || eqb c 8287
    || eqb c 12288

unfoldable pub trim_left : String → String
trim_left String.[] = ""
trim_left (String.◌∷◌ c s) = if is_space (code c) then trim_left s else String.◌∷◌ c s

unfoldable pub trim_right : String → String
trim_right String.[] = ""
trim_right (String.◌∷◌ c s) =
    let rest = trim_right s in if rest == "" && is_space (code c) then "" else String.◌∷◌ c rest

-- `strings.TrimSpace`.
abbrev pub trim_space : String → String
trim_space s = trim_right (trim_left s)

-- `strings.Split(s, ",")[0]`.
unfoldable pub before_comma : String → String
before_comma String.[] = ""
before_comma (String.◌∷◌ c s) =
    let rest = before_comma s in if eqb (code c) b',' then "" else String.◌∷◌ c rest

-- The address that a proxy names, or else what the connection says.
abbrev proxied_ip : Request → String → String
proxied_ip r direct =
    if not (header "X-Forwarded-For" r == "")
    then trim_space (before_comma (header "X-Forwarded-For" r))
    else if not (header "X-Real-IP" r == "")
    then header "X-Real-IP" r
    else direct

unfoldable pub get_real_ip : Request → String
get_real_ip r =
    let host = get_or_empty r.remote_host in
    proxied_ip r (if host == "" then r.remote_addr else host)

-- The version of the rate limiter keeps an empty host that was read without an error.
abbrev or_address : String → Option String → String
or_address addr none = addr
or_address addr (some host) = host

unfoldable pub get_real_ip_limiter : Request → String
get_real_ip_limiter r = proxied_ip r (or_address r.remote_addr r.remote_host)

-- ===== src/Samples.antt =====
-- Concrete data for the tests: a site, a visitor, the surroundings of a run and a small world.
use human_guard.Base.{
  ◌+◌, ◌*◌, String, Bool, true, false, some, [], ◌∷◌, ltb, eqb, Dict, none, ℕ, refl, List, arith,
}
use human_guard.Value.{FloatOps}
use human_guard.Clock.{Time, second, minute, hour}
use human_guard.Session.{ActiveSession, Sessions}
use human_guard.Settings.{document, get_default_settings}
use human_guard.Sites.{Query, Site, SiteRow, BlacklistEntry, Db}
use human_guard.ApiKeys.{ApiKey, KeyQuery}
use human_guard.Users.{User}
use human_guard.Totp.{TotpOps}
use human_guard.Totp.Codes.{IsDigest}
use human_guard.World.{World, Env}
use human_guard.Http.{Request}

-- Floats that are natural numbers.
abbrev pub floats : FloatOps
floats = record { of_int = λ n. n; lt = ltb; eq = eqb; add = λ m n. m + n; div = λ m n. m }

abbrev pub noon : Time
noon = 12 * hour

-- Noon of the first day of 1970.
abbrev pub in_1970 : Time
in_1970 = 62_135_596_800 * second + noon

abbrev pub answering : Query → Bool
answering q = false

abbrev pub env : Env
env = record {
  floats = floats;
  lower = λ c. c;
  show_int = λ n. "100";
  faults = answering;
  now = noon;
  fresh = "0190-new-session";
}

abbrev pub shop : Site
shop = record {
  id = "shop";
  user_id = "owner";
  name = "Shop";
  domain = "shop.example";
  origin_server = "10.0.0.5";
  status = "active";
  settings = some (get_default_settings floats);
  created_at = noon;
  updated_at = noon;
}

abbrev pub shop_row : SiteRow
shop_row = record { site = shop; column = document (get_default_settings floats) }

abbrev pub visitor_id : String
visitor_id = "0189-visitor"

abbrev pub visitor : ActiveSession
visitor = record {
  id = visitor_id;
  site_id = "shop";
  ip = "198.51.100.7";
  user_agent = "HeadlessChrome";
  device = "";
  location = "";
  is_active = true;
  risk_score = 60;
  is_blocked = false;
  captcha_shown = false;
  fingerprint = "";
  metrics = [];
  created_at = noon;
  last_activity = noon;
  expires_at = noon + 30 * minute;
}

abbrev pub store : Sessions
store = (visitor_id, visitor) ∷ []

abbrev pub ban : BlacklistEntry
ban = record {
  id = "b1";
  site_id = "shop";
  ip = "203.0.113.9";
  reason = "manual";
  created_at = noon;
  expires_at = some (noon + hour);
}

abbrev pub db : Db
db = record { sites = shop_row ∷ []; blacklist = ban ∷ [] }

abbrev pub world : World
world = record { sessions = store; db = db }

abbrev pub ask : String → Dict String → Request
ask method headers = record {
  method = method;
  path = "/api/check";
  headers = headers;
  cookies = [];
  user_agent = "Mozilla/5.0 (X11; Linux x86_64)";
  remote_addr = "198.51.100.7:4711";
  remote_host = some "198.51.100.7";
}

-- The visitor's next request, and one without a session.
abbrev pub returning : Request
returning = ask "POST" (("X-Site-ID", "shop") ∷ ("X-Session-ID", visitor_id) ∷ [])

abbrev pub newcomer : Request
newcomer = ask "POST" (("X-Site-ID", "shop") ∷ [])

-- A key in force, under the hash that stands for its text.
abbrev pub no_key_faults : KeyQuery → Bool
no_key_faults q = false

abbrev pub key : ApiKey
key = record {
  id = "01-key-of-ann";
  user_id = "u1";
  name = "ci";
  key_hash = "hash of hg_v1_secret";
  prefix = "hg_v1_se";
  last_used_at = none;
  expires_at = none;
  created_at = noon;
  revoked = false;
  created_by = none;
}

abbrev pub ann : User
ann = record {
  id = "u1";
  email = "ann@example.org";
  name = "Ann";
  avatar_url = none;
  role = "admin";
  totp_secret = none;
  password_hash = "";
  is_verified = true;
  created_at = noon;
  updated_at = noon;
  last_login = none;
}

-- Every secret decodes, and every digest is twenty zeros.
abbrev pub totp_ops : TotpOps
totp_ops = record {
  upper = λ c. c;
  decode_base32 = λ s. some [];
  hmac_sha1 =
      λ key msg. 0 ∷ 0 ∷ 0 ∷ 0 ∷ 0 ∷ 0 ∷ 0 ∷ 0 ∷ 0 ∷ 0 ∷ 0 ∷ 0 ∷ 0 ∷ 0 ∷ 0 ∷ 0 ∷ 0 ∷ 0 ∷ 0 ∷ 0 ∷ [];
}

pub totp-GivesDigests : (key msg : List ℕ) → IsDigest (totp_ops.hmac_sha1 key msg)
totp-GivesDigests key msg = (refl, ground arith)

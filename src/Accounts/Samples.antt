-- ===== src/Accounts/Samples.antt =====
-- Data for the tests of the management API: a user with a password, and the surroundings of a request.
use Prim.Native.String.{◌++◌ as concat}
use human_guard.Base.{◌*◌, String, false, some, [], ◌∷◌, ◌==◌}
use human_guard.Clock.{hour}
use human_guard.Http.{Request}
use human_guard.Users.{User}
use human_guard.Jwt.Samples.{ops}
use human_guard.Samples.{ann, key, ask, in_1970, no_key_faults, totp_ops}
use human_guard.Accounts.{Portal, PortalEnv}

-- A password is hashed by a prefix.
abbrev pub hash_of : String → String
hash_of text = concat "hash of " text

abbrev pub portal_env : PortalEnv
portal_env = record {
  table = λ c. c;
  faults = λ q. false;
  key_faults = no_key_faults;
  key_hash = hash_of;
  hash_password = λ password. some (hash_of password);
  matches = λ hash password. hash == hash_of password;
  parse_url = λ url. some ("https", "example.org");
  totp = totp_ops;
  secret = some "SECRET";
  jwt = ops;
  ttl = 24 * hour;
  now = in_1970;
  new_user_id = "u2";
  new_link_id = "l2";
  new_session_id = "s1";
}

-- The user of the samples, with a password.
abbrev pub ann_secured : User
ann_secured = record ann { password_hash = "hash of password" }

abbrev pub portal : Portal
portal = record {
  db = record { users = ann_secured ∷ []; links = []; keys = key ∷ [] };
  sessions = [];
}

abbrev pub bearing : Request
bearing = ask "GET" (("Authorization", "Bearer token") ∷ [])

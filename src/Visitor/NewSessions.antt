-- ===== src/Visitor/NewSessions.antt =====
-- What the check of a request does for a visitor whose session is not known.
use human_guard.Base.{◌+◌, ◌*◌, String, ◌≡◌, true, false, some, [], ◌∷◌, Dict, lookup}
use human_guard.Clock.{Time, minute}
use human_guard.Session.{ActiveSession, cleanup_loop, block_session}
use human_guard.World.{World, Env}
use human_guard.Http.{Request, Response, Field, text, int, header, get_real_ip}

-- The answer to a visitor without a history.
abbrev pub welcome : String → Dict Field
welcome id = ("action", text "allow") ∷ ("session_id", text id) ∷ ("risk_score", int 0) ∷ []

-- The session that such a visitor is given.
abbrev pub first_visit : Env → Request → ActiveSession
first_visit env r = record {
  id = env.fresh;
  site_id = header "X-Site-ID" r;
  ip = get_real_ip r;
  user_agent = r.user_agent;
  device = "";
  location = "";
  is_active = true;
  risk_score = 0;
  is_blocked = false;
  captcha_shown = false;
  fingerprint = "";
  metrics = [];
  created_at = env.now;
  last_activity = env.now;
  expires_at = env.now + 30 * minute;
}

abbrev Welcomed : Env → Request → World × Response → Type 0
Welcomed env r x =
    (x.1.status ≡ 200)
    × (x.1.body ≡ welcome env.fresh)
    × (lookup env.fresh x.0.sessions ≡ some (first_visit env r))

-- The world after a session has been blocked and the next sweep has run.
abbrev pub after_sweep : Time → String → World → World
after_sweep now id w = record w { sessions = cleanup_loop now (block_session id w.sessions).0 }

-- ===== src/SiteApi/Lists.antt =====
-- backend/handlers/site.go, `GetBlacklist`, `AddToBlacklist` and `RemoveFromBlacklist`: the handlers
-- that the owner of a site and administrators may use.
use human_guard.Base.{
  ℤ, positive_part, String, Bool, not, ◌||◌, Option, none, some, List, ◌==◌, ltb, if◌then◌else◌,
}
use human_guard.Errors.{Result, ok, err}
use human_guard.Clock.{Time, minute, duration, add_duration}
use human_guard.Http.{Body, parsed}
use human_guard.Sites.{
  Site, Db, BlacklistEntry, get_site, add_to_blacklist, remove_from_blacklist, list_entries,
  stamped,
}
use human_guard.World.{Env}
use human_guard.Auth.{Identity}
use human_guard.Reply.{Reply, http_error, failed, json, no_content}

-- `site.UserID != userID && role != "admin"` is the refusal.
abbrev pub may_manage : Identity → Site → Bool
may_manage who site = site.user_id == who.user_id || who.role == "admin"

-- What the three handlers do first.
abbrev pub guarded {ℓ} : {A : Type ℓ} → Identity → Result Site → Db → Db × Reply A → Db × Reply A
guarded who (err e) db next = (db, http_error 404 "Site not found")
guarded who (ok site) db next =
    if may_manage who site then next else (db, http_error 403 "Forbidden")

unfoldable pub get_blacklist : Env → Identity → String → Db → Db × Reply (List BlacklistEntry)
get_blacklist env who id db =
    guarded who (get_site env.floats env.faults id db) db
      (elim (list_entries env.faults env.now id db) [
        | err e ↦ (db, failed 500 e)
        | ok entries ↦ (db, json 200 entries)
      ])

pub record BanBody : Type 0 where
  pub ip : String
  pub reason : String
  pub expires_in_minutes : Option ℤ

-- No expiry for a number that is missing or not positive.
abbrev pub expiry_of : Time → Option ℤ → Option Time
expiry_of now none = none
expiry_of now (some n) =
    if ltb 0 (positive_part n)
    then some (add_duration now (duration (positive_part n) minute))
    else none

abbrev pub ban_entry : Time → String → BanBody → BlacklistEntry
ban_entry now site_id b = record {
  id = "";
  site_id = site_id;
  ip = b.ip;
  reason = b.reason;
  created_at = 0;
  expires_at = expiry_of now b.expires_in_minutes;
}

abbrev pub ban_reply : BlacklistEntry → Db × Result (Unit {0}) → Db × Reply BlacklistEntry
ban_reply e (db, err x) = (db, failed 500 x)
ban_reply e (db, ok _) = (db, json 201 e)

unfoldable pub ban : Env → (String → Bool) → String → Body BanBody → Db → Db × Reply BlacklistEntry
ban env is_ipv4 id body db = elim body [
  | parsed b ↦
      if b.ip == ""
      then (db, http_error 400 "ip required")
      else if not (is_ipv4 b.ip)
      then (db, http_error 400 "invalid IPv4 address")
      else ban_reply (stamped env.now env.fresh (ban_entry env.now id b))
          (add_to_blacklist env.faults env.now env.fresh (ban_entry env.now id b) db)
  | _ ↦ (db, http_error 400 "Invalid request")
]

unfoldable pub serve_add_to_blacklist :
    Env → (String → Bool) → Identity → String → Body BanBody → Db → Db × Reply BlacklistEntry
serve_add_to_blacklist env is_ipv4 who id body db =
    guarded who (get_site env.floats env.faults id db) db (ban env is_ipv4 id body db)

abbrev pub lift_reply : Db × Result (Unit {0}) → Db × Reply (Unit {0})
lift_reply (db, err e) = (db, failed 500 e)
lift_reply (db, ok _) = (db, no_content)

unfoldable pub serve_remove_from_blacklist :
    Env → Identity → String → String → Db → Db × Reply (Unit {0})
serve_remove_from_blacklist env who id ip db =
    guarded who (get_site env.floats env.faults id db) db
      (lift_reply (remove_from_blacklist env.faults id ip db))

-- ===== src/Csrf/Tests.antt =====
-- The token check on concrete requests.
use human_guard.Base.{String, ◌≡◌, refl, ◌≢◌, ◌↔◌, [], ◌∷◌, arith, eq_iff, lookup}
use human_guard.Http.{Request}
use human_guard.Csrf.{ensure_csrf_cookie, through, csrf_middleware, exempt_paths}
use human_guard.Csrf.Protection.{Passes, csrf_middleware_through, Follows}
use human_guard.Samples.{ask}

abbrev delete_site_request : String → Request
delete_site_request token = record (ask "DELETE" (("X-CSRF-Token", token) ∷ [])) {
  path = "/api/sites/7";
  cookies = ("csrf_token", "t0k3n") ∷ [];
}

abbrev first : Request
first = ask "GET" []

-- A change without a token.
abbrev upgrading : Request
upgrading = record (ask "DELETE" (("Upgrade", "websocket") ∷ [])) { path = "/api/sites/7" }

upgrading_passes : csrf_middleware exempt_paths upgrading ≡ through
unfolding csrf_middleware lookup
upgrading_passes = refl

csrf_middleware_through_example :
    (csrf_middleware exempt_paths (delete_site_request "t0k3n") ≡ through)
    ↔ Passes exempt_paths (delete_site_request "t0k3n")
csrf_middleware_through_example = csrf_middleware_through exempt_paths (delete_site_request "t0k3n")

abbrev drawn : String
drawn = "t0k3n"

drawn_some : drawn ≢ ""
drawn_some e = ground (arith, (eq_iff "t0k3n" "").1 e)

follows : Follows "t0k3n" first (delete_site_request "t0k3n")
unfolding lookup ensure_csrf_cookie
follows = (refl, refl)

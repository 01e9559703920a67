-- ===== src/Csrf/Exemptions.antt =====
-- The paths that the server exempts from the token check.
use human_guard.Base.{codes, has_prefix, String, ◌≡◌, true, List, ◌∷◌, arith}
use human_guard.Http.{Request}
use human_guard.Csrf.{through, is_exempt, csrf_middleware, exempt_paths}

is_exempt_second :
    (p q : String) (ps : List String) (r : Request)
    → has_prefix (codes r.path) (codes q) ≡ true
    → is_exempt (p ∷ q ∷ ps) r ≡ true
is_exempt_second p q ps r starts = ground arith

-- The server's list exempts every path that starts with "/api/users", not only the registration:
-- a request for one goes through without any token, whatever its method.
pub csrf_middleware_users :
    (r : Request)
    → has_prefix (codes r.path) (codes "/api/users") ≡ true
    → csrf_middleware exempt_paths r ≡ through
unfolding csrf_middleware
csrf_middleware_users r users =
    rw (is_exempt_second "/api/login" "/api/users" _ r users, csrf_middleware) (ground arith)

-- ===== src/Visitor/Tests.antt =====
-- The request check on a concrete world.
use human_guard.Base.{◌≢◌, ◌⊎◌, eq_iff, ◌≡◌, refl, Bool, true, false, [], arith, lookup}
use human_guard.Errors.{ok}
use human_guard.Session.{get_session}
use human_guard.Sites.{Site, get_site, is_blacklisted}
use human_guard.Http.{Request, parsed, empty}
use human_guard.Visitor.{
  CheckBody, existing, find_session, check_request, check_preflight, preflight_site,
}
use human_guard.Visitor.Decisions.{IsFor}
use human_guard.Visitor.Checks.{check_request_refused}
use human_guard.Visitor.Answering.{IsAdmitted, IsServed}
use human_guard.Visitor.Verdicts.{check_request_existing}
use human_guard.Samples.{env, shop, visitor, visitor_id, store, world, returning, ask}

abbrev captcha : Bool → CheckBody
captcha passed = record { site_id = "shop"; captcha_passed = passed }

abbrev preflight : Request
preflight = ask "OPTIONS" []

returning-IsFor : IsFor env returning world shop
unfolding get_site lookup
returning-IsFor = record { method = refl; named = refl; known = refl }

returning-free : is_blacklisted env.faults env.now "shop" "198.51.100.7" world.db ≡ ok false
unfolding is_blacklisted
returning-free = refl

returning_known : find_session "shop" visitor_id store ≡ existing visitor
unfolding find_session get_session lookup
returning_known = refl

check_request_existing_example :
    let body = parsed (captcha true) in
    ((site : Site) × IsAdmitted env returning body world visitor site
      × IsServed env returning true world visitor site visitor_id
          (check_request env returning body world))
    ⊎ ((¬ ((site : Site) × IsAdmitted env returning body world visitor site))
        × ((check_request env returning body world).1.status ≢ 200)
        × ((check_request env returning body world).0 ≡ world))
unfolding lookup
check_request_existing_example =
    check_request_existing env returning (parsed (captcha true)) world visitor visitor_id
      (λ e. ground (arith, (eq_iff visitor_id "").1 e)) refl

check_request_refused_example : (check_request env preflight empty world).0 ≡ world
unfolding check_request check_preflight preflight_site lookup
check_request_refused_example =
    check_request_refused env preflight empty world (λ e. omega (arith, e))

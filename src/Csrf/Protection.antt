-- ===== src/Csrf/Protection.antt =====
-- Which requests the token check lets through.
use human_guard.Base.{
  codes, has_prefix, ℕ, String, ◌≡◌, refl, sym, ap, ◌∙◌, ◌≢◌, ◌↔◌, ◌⊎◌, inl, inr, true, false, List,
  [], ◌∷◌, ◌++◌, arith, ◌==◌, eq_iff, if◌then◌else◌, Bool-cases,
}
use human_guard.Http.{Request, header, cookie_value}
use human_guard.Csrf.{
  csrf_cookie_name, ensure_csrf_cookie, through, is_safe, is_exempt, check_token, csrf_middleware,
}

-- A request that only reads.
abbrev pub IsReading : Request → Type 0
IsReading r = (r.method ≡ "GET") ⊎ (r.method ≡ "HEAD") ⊎ (r.method ≡ "OPTIONS")

-- The path of a request begins with one of these.
abbrev pub BeginsWithOne : List String → String → Type 0
BeginsWithOne [] path = ⊥
BeginsWithOne (p ∷ ps) path =
    ((rest : List ℕ) × (codes path ≡ codes p ++ rest)) ⊎ BeginsWithOne ps path

-- A token stands in the cookie, and the same one in the header.
abbrev pub HasToken : Request → Type 0
HasToken r =
    (cookie_value csrf_cookie_name r ≢ "")
    × (header "X-CSRF-Token" r ≡ cookie_value csrf_cookie_name r)

has_prefix_self : (s : List ℕ) → has_prefix s s ≡ true
has_prefix_self [] = refl
has_prefix_self (c ∷ s) = ground (arith, has_prefix_self s)

has_prefix-splits : (s t : List ℕ) → has_prefix s t ≡ true → (rest : List ℕ) × (s ≡ t ++ rest)
has_prefix-splits s [] h = (s, refl)
has_prefix-splits [] (c ∷ t) h = ground arith
has_prefix-splits (d ∷ s) (c ∷ t) h =
    let same : d ≡ c = ground arith in
    let (rest, split) = has_prefix-splits s t (ground arith) in (rest, λ i. same i ∷ split i)

has_prefix-append : (t rest : List ℕ) → has_prefix (t ++ rest) t ≡ true
has_prefix-append [] rest = refl
has_prefix-append (c ∷ t) rest = ground (arith, has_prefix-append t rest)

is_exempt_begins :
    (exempt : List String) (r : Request) → is_exempt exempt r ≡ true → BeginsWithOne exempt r.path
is_exempt_begins [] r h = ground arith
is_exempt_begins (p ∷ ps) r h = elim (Bool-cases (has_prefix (codes r.path) (codes p))) [
  | inl here ↦ inl (has_prefix-splits (codes r.path) (codes p) here)
  | inr other ↦ elim (Bool-cases (r.path == p)) [
    | inl same ↦
        let whole =
          ap (λ s. has_prefix (codes s) (codes p)) ((eq_iff r.path p).0 same)
          ∙ has_prefix_self (codes p) in
        ground arith
    | inr apart ↦ inr (is_exempt_begins ps r (ground arith))
  ]
]

begins_exempt :
    (exempt : List String) (r : Request) → BeginsWithOne exempt r.path → is_exempt exempt r ≡ true
begins_exempt [] r x = elim x [ ]
begins_exempt (p ∷ ps) r (inl (rest, split)) =
    let here : has_prefix (codes r.path) (codes p) ≡ true =
      ap (λ s. has_prefix s (codes p)) split ∙ has_prefix-append (codes p) rest in
    ground arith
begins_exempt (p ∷ ps) r (inr later) = let there = begins_exempt ps r later in ground arith

check_token-HasToken : (r : Request) → (check_token r ≡ through) ↔ HasToken r
unfolding check_token
check_token-HasToken r = ground (
  arith,
  eq_iff (cookie_value csrf_cookie_name r) "",
  eq_iff (header "X-CSRF-Token" r) "",
  eq_iff (cookie_value csrf_cookie_name r) (header "X-CSRF-Token" r),
)

is_safe_reads :
    (r : Request) → (is_safe r ≡ true) ↔ (IsReading r ⊎ (header "Upgrade" r ≡ "websocket"))
is_safe_reads r = ground (
  arith,
  eq_iff r.method "GET",
  eq_iff r.method "HEAD",
  eq_iff r.method "OPTIONS",
  eq_iff (header "Upgrade" r) "websocket",
)

-- The ways through.
abbrev pub Passes : List String → Request → Type 0
Passes exempt r =
    IsReading r ⊎ (header "Upgrade" r ≡ "websocket") ⊎ BeginsWithOne exempt r.path ⊎ HasToken r

needs_token :
    (exempt : List String) (r : Request)
    → is_safe r ≡ false
    → is_exempt exempt r ≡ false
    → Passes exempt r
    → HasToken r
needs_token exempt r unsafe unlisted (inl reads) =
    let safe = (is_safe_reads r).1 (inl reads) in ground arith
needs_token exempt r unsafe unlisted (inr (inl upgrade)) =
    let safe = (is_safe_reads r).1 (inr upgrade) in ground arith
needs_token exempt r unsafe unlisted (inr (inr (inl begins))) =
    let listed = begins_exempt exempt r begins in ground arith
needs_token exempt r unsafe unlisted (inr (inr (inr token))) = token

-- A request goes through exactly when it only reads (its method is GET, HEAD or OPTIONS), or its
-- header Upgrade says websocket, or its path begins with an exempt one, or it carries a token in the
-- cookie and the same one in the header. So every request that changes something goes through without
-- a token if it has that header.
pub csrf_middleware_through :
    (exempt : List String) (r : Request) → (csrf_middleware exempt r ≡ through) ↔ Passes exempt r
unfolding csrf_middleware
csrf_middleware_through exempt r = elim (Bool-cases (is_safe r)) [
  | inl safe ↦
      let passed : csrf_middleware exempt r ≡ through = rw (csrf_middleware, safe) refl in
      (
        λ h. elim ((is_safe_reads r).0 safe) [
          | inl reads ↦ inl reads
          | inr upgrade ↦ inr (inl upgrade)
        ],
        λ h. passed,
      )
  | inr unsafe ↦ elim (Bool-cases (is_exempt exempt r)) [
    | inl listed ↦
        let passed : csrf_middleware exempt r ≡ through =
          rw (csrf_middleware, unsafe, listed) refl in
        (λ h. inr (inr (inl (is_exempt_begins exempt r listed))), λ h. passed)
    | inr unlisted ↦
        let asked : csrf_middleware exempt r ≡ check_token r =
          rw (csrf_middleware, unsafe, unlisted) refl in
        (
          λ h. inr (inr (inr ((check_token-HasToken r).0 (sym asked ∙ h)))),
          λ h. asked ∙ (check_token-HasToken r).1 (needs_token exempt r unsafe unlisted h),
        )
  ]
]

-- A client's next request: it sends the cookie that it has or was given, and the token that it was
-- told.
abbrev pub Follows : String → Request → Request → Type 0
Follows drawn first next =
    (cookie_value csrf_cookie_name next ≡ (
      if cookie_value csrf_cookie_name first == ""
      then drawn
      else cookie_value csrf_cookie_name first))
    × (header "X-CSRF-Token" next ≡ (ensure_csrf_cookie drawn first).1)

-- A client that has fetched a token, whether it had one before or not, and sends it back in the
-- header with its cookies, is let through on every path and with every method. The token drawn is
-- not empty.
pub csrf_middleware-ensure_csrf_cookie :
    (exempt : List String) (drawn : String) (first next : Request)
    → drawn ≢ ""
    → Follows drawn first next
    → csrf_middleware exempt next ≡ through
unfolding csrf_middleware check_token ensure_csrf_cookie
csrf_middleware-ensure_csrf_cookie exempt drawn first next drawn_some follows = ground (
  arith,
  eq_iff (cookie_value csrf_cookie_name first) "",
  eq_iff (cookie_value csrf_cookie_name next) "",
  eq_iff (header "X-CSRF-Token" next) "",
  eq_iff (cookie_value csrf_cookie_name next) (header "X-CSRF-Token" next),
)

-- ===== src/RateLimiter/Keys.antt =====
-- backend/middleware/ratelimit.go: the key of a bucket tells the address and the path apart.
use text.Mathlib.TextLemmas.{nil-append, cons-append, head-eq_of_cons-eq, tail-eq_of_cons-eq}
use Prim.Native.Char.{code}
use Prim.Native.String.{◌++◌ as concat}
use human_guard.Base.{codes, String, ◌≡◌, refl, sym, ap, ◌∙◌, false, arith, eqb, any_of}
use human_guard.RateLimiter.{limit_key}

-- An address has no slash.
abbrev pub IsAddress : String → Type 0
IsAddress ip = any_of (λ c. eqb c b'/') (codes ip) ≡ false

-- The path of a URL begins with a slash.
abbrev pub IsPath : String → Type 0
IsPath path = (rest : String) × (path ≡ String.◌∷◌ "/" rest)

slash_first :
    (rest s path : String)
    → IsAddress s
    → Path String (String.◌∷◌ "/" rest) (concat s (String.◌∷◌ ":" path))
    → ⊥
slash_first rest String.[] path plain same =
    let heads = head-eq_of_cons-eq (same ∙ nil-append (String.◌∷◌ ":" path)) in
    ground (arith, ap code heads)
slash_first rest (String.◌∷◌ c s) path plain same =
    let heads = head-eq_of_cons-eq (same ∙ cons-append c s (String.◌∷◌ ":" path)) in
    ground (arith, ap code heads)

-- The key up to the colon.
pub joined_inj :
    (ip ip' path path' : String)
    → IsAddress ip
    → IsAddress ip'
    → IsPath path
    → IsPath path'
    → concat ip (String.◌∷◌ ":" path) ≡ concat ip' (String.◌∷◌ ":" path')
    → (ip ≡ ip') × (path ≡ path')
joined_inj String.[] String.[] path path' plain plain' p p' same = (
  refl,
  tail-eq_of_cons-eq
      (sym (nil-append (String.◌∷◌ ":" path)) ∙ same ∙ nil-append (String.◌∷◌ ":" path')),
)
joined_inj String.[] (String.◌∷◌ c s) path path' plain plain' (rest, slash) p' same =
    let tails =
      tail-eq_of_cons-eq
        (sym (nil-append (String.◌∷◌ ":" path)) ∙ same ∙ cons-append c s (String.◌∷◌ ":" path')) in
    absurd (slash_first rest s path' (ground arith) (sym slash ∙ tails))
joined_inj (String.◌∷◌ c s) String.[] path path' plain plain' p (rest, slash) same =
    let tails = tail-eq_of_cons-eq (
      sym (nil-append (String.◌∷◌ ":" path')) ∙ sym same ∙ cons-append c s (String.◌∷◌ ":" path)) in
    absurd (slash_first rest s path (ground arith) (sym slash ∙ tails))
joined_inj (String.◌∷◌ c s) (String.◌∷◌ d t) path path' plain plain' p p' same =
    let whole =
      sym (cons-append c s (String.◌∷◌ ":" path)) ∙ same ∙ cons-append d t (String.◌∷◌ ":" path') in
    let (rest, paths) =
      joined_inj s t path path' (ground arith) (ground arith) p p' (tail-eq_of_cons-eq whole) in
    ((λ i. String.◌∷◌ (head-eq_of_cons-eq whole i) (rest i)), paths)

colon_first : (path : String) → concat ":" path ≡ String.◌∷◌ ":" path
colon_first path = cons-append ":" "" path ∙ ap (String.◌∷◌ ":") (nil-append path)

-- Two keys of buckets are equal only for the same address and the same path.
pub limit_key_inj :
    (ip ip' path path' : String)
    → IsAddress ip
    → IsAddress ip'
    → IsPath path
    → IsPath path'
    → limit_key ip path ≡ limit_key ip' path'
    → (ip ≡ ip') × (path ≡ path')
limit_key_inj ip ip' path path' a a' p p' same =
    joined_inj ip ip' path path' a a' p p'
      (ap (concat ip) (sym (colon_first path)) ∙ same ∙ ap (concat ip') (colon_first path'))

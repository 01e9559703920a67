-- ===== src/RateLimiter/Isolation.antt =====
-- Each address and path has a bucket of its own.
use human_guard.Base.{
  All, arith, insert, lookup-insert_self, Option, none, ◌&&◌, none, All, lookup-insert_self,
  lookup-insert, lookup-adjust, String, ◌≡◌, refl, sym, ap, ◌∙◌, inl, inr, Bool, true, false, some,
  List, [], ◌∷◌, ◌==◌, eq_iff, eq_refl, if◌then◌else◌, Bool-cases, Option-cases, Dict, lookup,
  adjust, Option, arith, insert,
}
use human_guard.Clock.{Time}
use human_guard.Http.{Response}
use human_guard.RateLimiter.Keys.{IsAddress, IsPath, limit_key_inj}
use human_guard.RateLimiter.{
  fresh_limiter, too_many, LimitedVisitor, LimitEnv, Verdict, passed_on, limited, limit_key,
  get_limiter, take_token,
}

pub record Hit : Type 0 where
  pub at : Time
  pub ip : String
  pub path : String

-- A request comes from this address for this path.
abbrev pub is_of : String → String → Hit → Bool
is_of ip path h = h.ip == ip && h.path == path

abbrev pub is_granted : Verdict → Bool
is_granted passed_on = true
is_granted (limited r) = false

is_granted_if : (b : Bool) (r : Response) → is_granted (if b then passed_on else limited r) ≡ b
is_granted_if true r = refl
is_granted_if false r = refl

module _ {L : Type 0} (env : LimitEnv L) where
  -- What one bucket alone answers to requests at these times.
  abbrev pub bucket_run : L → List Time → List Bool
  bucket_run l [] = []
  bucket_run l (t ∷ ts) =
      let (spent, granted) = env.buckets.allow t l in granted ∷ bucket_run spent ts

  abbrev pub times_of : String → String → List Hit → List Time
  times_of ip path [] = []
  times_of ip path (h ∷ hs) =
      if is_of ip path h then h.at ∷ times_of ip path hs else times_of ip path hs

  -- What the limiter answers to the requests for one path from one address, among all the others.
  unfoldable pub answers_for : String → String → List Hit → Dict (LimitedVisitor L) → List Bool
  answers_for ip path [] m = []
  answers_for ip path (h ∷ hs) m =
      let (after, verdict) = take_token env h.at h.ip h.path m in
      let rest = answers_for ip path hs after in
      if is_of ip path h then is_granted verdict ∷ rest else rest

  abbrev pub standing : String → Option (LimitedVisitor L) → L
  standing path none = fresh_limiter env path
  standing path (some v) = v.limiter

  -- The bucket that stands for an address and a path: a new one by the rule of the path at first.
  abbrev pub bucket_of : String → String → Dict (LimitedVisitor L) → L
  bucket_of ip path m = standing path (lookup (limit_key ip path) m)

  take_token_other :
      (now : Time) (ip path k : String) (m : Dict (LimitedVisitor L))
      → (limit_key ip path == k) ≡ false
      → lookup k (take_token env now ip path m).0 ≡ lookup k m
  unfolding take_token get_limiter
  take_token_other now ip path k m other = elim (Option-cases (lookup (limit_key ip path) m)) [
    | inl e ↦
        rw (e, take_token, get_limiter)
          (lookup-adjust (limit_key ip path) k _ _
            ∙ rw other (lookup-insert (limit_key ip path) k _ m ∙ rw other refl))
    | inr (v, e) ↦
        rw (e, take_token, get_limiter)
          (lookup-adjust (limit_key ip path) k _ _
            ∙ rw other (lookup-adjust (limit_key ip path) k _ m ∙ rw other refl))
  ]

  take_token_same :
      (now : Time) (ip path : String) (m : Dict (LimitedVisitor L))
      → let (spent, granted) = env.buckets.allow now (bucket_of ip path m) in
        (is_granted (take_token env now ip path m).1 ≡ granted)
        × (bucket_of ip path (take_token env now ip path m).0 ≡ spent)
  unfolding take_token get_limiter
  take_token_same now ip path m =
      let key = limit_key ip path in
      let seen_now = λ (x : LimitedVisitor L). record x { last_seen = now } in
      elim (Option-cases (lookup key m)) [
        | inl e ↦
            let l = fresh_limiter env path in
            let spent = (env.buckets.allow now l).0 in
            let first : LimitedVisitor L = record {
              limiter = l;
              last_seen = now;
              rule_key = path;
            } in
            let stored : lookup key
                  (adjust key (λ x. record x { limiter = spent }) (insert key first m))
                ≡ some (record first { limiter = spent }) =
              lookup-adjust key key _ _ ∙ rw (eq_refl key, lookup-insert_self key first m) refl in
            rw (e, take_token, get_limiter)
              (
                is_granted_if (env.buckets.allow now l).1 (too_many env spent),
                ap (standing path) stored,
              )
        | inr (v, found) ↦
            let spent = (env.buckets.allow now v.limiter).0 in
            let there : lookup key (adjust key seen_now m) ≡ some (seen_now v) =
              lookup-adjust key key seen_now m ∙ rw (eq_refl key, found) refl in
            let stored : lookup key
                  (adjust key (λ x. record x { limiter = spent }) (adjust key seen_now m))
                ≡ some (record (seen_now v) { limiter = spent }) =
              lookup-adjust key key _ _ ∙ rw (eq_refl key, there) refl in
            rw (found, take_token, get_limiter)
              (
                is_granted_if (env.buckets.allow now v.limiter).1 (too_many env spent),
                ap (standing path) stored,
              )
      ]

  -- The requests for one path from one address are answered by one bucket alone, the one that stands
  -- for them or else a new one by the rule of the path, however many requests for other paths or from
  -- other addresses come in between: these take no token of it. Addresses have no slash, and paths
  -- begin with one.
  pub answers_for-bucket_run :
      (ip path : String) (hs : List Hit) (m : Dict (LimitedVisitor L))
      → IsAddress ip
      → IsPath path
      → All (λ h. IsAddress h.ip × IsPath h.path) hs
      → answers_for ip path hs m ≡ bucket_run (bucket_of ip path m) (times_of ip path hs)
  unfolding answers_for
  answers_for-bucket_run ip path [] m a p others = refl
  answers_for-bucket_run ip path (h ∷ hs) m a p ((ha, hp), others) =
      let after = (take_token env h.at h.ip h.path m).0 in
      let rest = answers_for-bucket_run ip path hs after a p others in
      elim (Bool-cases (is_of ip path h)) [
        | inl same ↦
            let at_ip : h.ip ≡ ip = ground (arith, eq_iff h.ip ip) in
            let at_path : h.path ≡ path = ground (arith, eq_iff h.path path) in
            let one : (q : Dict (LimitedVisitor L))
                → bucket_of h.ip h.path q ≡ bucket_of ip path q =
              λ q i. bucket_of (at_ip i) (at_path i) q in
            let (told, left) = take_token_same h.at h.ip h.path m in
            let granted = told ∙ ap (λ l. (env.buckets.allow h.at l).1) (one m) in
            let spent = sym (one after) ∙ left ∙ ap (λ l. (env.buckets.allow h.at l).0) (one m) in
            let later = rest ∙ ap (λ l. bucket_run l (times_of ip path hs)) spent in
            rw (same, answers_for) (λ i. granted i ∷ later i)
        | inr other ↦
            let apart : (limit_key h.ip h.path == limit_key ip path) ≡ false = ground (
              arith,
              eq_iff (limit_key h.ip h.path) (limit_key ip path),
              limit_key_inj h.ip ip h.path path ha a hp p,
              eq_iff h.ip ip,
              eq_iff h.path path,
            ) in
            rw (other, answers_for)
              (rest
                ∙ ap (λ o. bucket_run (standing path o) (times_of ip path hs))
                    (take_token_other h.at h.ip h.path (limit_key ip path) m apart))
      ]

-- ===== src/Detector/RateWindow.antt =====
-- The sliding window of `rateLimitScore`.
use mathlib.Core.Path.{subst}
use mathlib.Core.List.{append-nil, append_assoc}
use human_guard.Base.{
  sym, suc, ◌+◌, ◌≤◌, ◌<◌, String, Bool, List, [], ◌∷◌, ◌++◌, ◌≡◌, refl, ap, ◌∙◌, arith, Dict,
  lookup, lookup-insert, All, keep, length, length-append, count_if, length-keep, ltb,
  if◌then◌else◌, ◌==◌, eq_refl,
}
use human_guard.Clock.{Time, minute, since}
use human_guard.Detector.Scores.{stamps, window, rate_score, rate_limit_score}

abbrev pub recent : Time → Time → Bool
recent now t = ltb (since now t) minute

-- The requests of an address that the detector has on record.
abbrev pub on_record : String → Dict (List Time) → List Time
on_record ip counts = stamps (lookup ip counts)

-- The score of a request depends on how many requests of the same address less than a minute old
-- are on record, itself counted.
pub rate_limit_score_lem :
    (now : Time) (ip : String) (counts : Dict (List Time))
    → (rate_limit_score now ip counts).1
      ≡ rate_score (suc (count_if (recent now) (on_record ip counts)))
unfolding rate_limit_score window
rate_limit_score_lem now ip counts = ap rate_score counted
  where
    counted :
        length (window now (on_record ip counts))
        ≡ suc (count_if (recent now) (on_record ip counts))
    counted = omega (
      arith,
      length-append (keep (recent now) (on_record ip counts)) (now ∷ []),
      length-keep (recent now) (on_record ip counts),
    )

-- It is recorded for its own address, and no other address is touched.
pub on_record-rate_limit_score :
    (now : Time) (ip j : String) (counts : Dict (List Time))
    → on_record j (rate_limit_score now ip counts).0
      ≡ (if ip == j then window now (on_record ip counts) else on_record j counts)
unfolding rate_limit_score
on_record-rate_limit_score now ip j counts =
    ground (arith, lookup-insert ip j (window now (on_record ip counts)) counts)

-- A run of requests from one address.
abbrev pub requests : String → Dict (List Time) → List Time → Dict (List Time)
requests ip counts [] = counts
requests ip counts (now ∷ ts) = requests ip (rate_limit_score now ip counts).0 ts

abbrev pub Within : Time → List Time → Type 0
Within start ts = All (λ t. (start ≤ t) × (t < start + minute)) ts

keep-recent :
    (start now : Time) (ts : List Time)
    → start ≤ now
    → now < start + minute
    → Within start ts
    → keep (recent now) ts ≡ ts
keep-recent start now [] a b h = refl
keep-recent start now (t ∷ ts) a b h = ground (arith, keep-recent start now ts a b h.1)

window-Within :
    (start now : Time) (ts : List Time)
    → start ≤ now
    → now < start + minute
    → Within start ts
    → window now ts ≡ ts ++ now ∷ []
unfolding window
window-Within start now ts a b h = rw (keep-recent start now ts a b h)

Within-append :
    (start now : Time) (ts : List Time)
    → start ≤ now
    → now < start + minute
    → Within start ts
    → Within start (ts ++ now ∷ [])
Within-append start now [] a b h = ((a, b), tt)
Within-append start now (t ∷ ts) a b h = (h.0, Within-append start now ts a b h.1)

on_record-requests :
    (start : Time) (ip : String) (counts : Dict (List Time)) (ts : List Time)
    → Within start (on_record ip counts)
    → Within start ts
    → on_record ip (requests ip counts ts) ≡ on_record ip counts ++ ts
on_record-requests start ip counts [] old h = sym (append-nil (on_record ip counts))
on_record-requests start ip counts (now ∷ ts) old h =
    let next =
      on_record-rate_limit_score now ip ip counts
      ∙ (rw (eq_refl ip) (window-Within start now (on_record ip counts) h.0.0 h.0.1 old)) in
    let kept =
      subst (Within start) (sym next)
        (Within-append start now (on_record ip counts) h.0.0 h.0.1 old) in
    on_record-requests start ip (rate_limit_score now ip counts).0 ts kept h.1
    ∙ (rw next (append_assoc (on_record ip counts) (now ∷ []) ts))

Within-split :
    (start now : Time) (ts : List Time)
    → Within start (ts ++ now ∷ [])
    → Within start ts × ((start ≤ now) × (now < start + minute))
Within-split start now [] h = (tt, h.0)
Within-split start now (t ∷ ts) h =
    let (rest, last) = Within-split start now ts h.1 in ((h.0, rest), last)

count-recent :
    (start now : Time) (ts : List Time)
    → start ≤ now
    → now < start + minute
    → Within start ts
    → count_if (recent now) ts ≡ length ts
count-recent start now [] a b h = refl
count-recent start now (t ∷ ts) a b h = ground (arith, count-recent start now ts a b h.1)

-- From an address with nothing on record, after any requests in a span of less than a minute, one
-- more request in that span scores by the number of them all: nothing up to 30, 20 up to 60, 50 up
-- to 100, and 100 beyond.
pub rate_limit_score-requests :
    (start now : Time) (ip : String) (counts : Dict (List Time)) (ts : List Time)
    → on_record ip counts ≡ []
    → Within start (ts ++ now ∷ [])
    → (rate_limit_score now ip (requests ip counts ts)).1 ≡ rate_score (suc (length ts))
rate_limit_score-requests start now ip counts ts none_yet h =
    let (old, last) = Within-split start now ts h in
    let recorded =
      on_record-requests start ip counts ts (rw none_yet tt) old ∙ ap (λ xs. xs ++ ts) none_yet in
    rate_limit_score_lem now ip (requests ip counts ts)
    ∙ ap (λ xs. rate_score (suc (count_if (recent now) xs))) recorded
    ∙ ap (λ n. rate_score (suc n)) (count-recent start now ts last.0 last.1 old)

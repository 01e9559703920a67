-- ===== src/Base/Dicts.antt =====
-- Go's maps and `sync.Map` keyed by text, as association lists. A key that is missing reads `none`;
-- `range` visits the entries in list order.
use Prim.Native.String.{String}
use mathlib.Core.Path.{◌≡◌, refl}
use mathlib.Core.Logic.{◌≢◌, inl, inr}
use mathlib.Core.Bool.{Bool}
use mathlib.Core.Option
use mathlib.Core.Option.{Option, none, some}
use mathlib.Core.List.{List, [], ◌∷◌}
use native.Mathlib.Omega.{arith}
use text.Mathlib.Text.{◌==◌}
use text.Mathlib.TextEquality.{eq_iff}
use text.Mathlib.TextPositions.{eq_refl}
use human_guard.Base.Tests.{if◌then◌else◌, Bool-cases}
use human_guard.Base.Lists.{keep, All}

abbrev pub Dict {ℓ} : Type ℓ → Type ℓ
Dict V = List (String × V)

module _ {ℓ} {V : Type ℓ} where
  unfoldable pub lookup : String → Dict V → Option V
  lookup k [] = none
  lookup k ((j, v) ∷ m) = if j == k then some v else lookup k m

  unfoldable pub insert : String → V → Dict V → Dict V
  insert key new [] = (key, new) ∷ []
  insert key new ((at, old) ∷ dict) =
      if at == key then (key, new) ∷ dict else (at, old) ∷ insert key new dict

  unfoldable pub delete : String → Dict V → Dict V
  delete k [] = []
  delete k ((j, v) ∷ m) = if j == k then delete k m else (j, v) ∷ delete k m

  -- A write through the pointer that a map holds under a key.
  unfoldable pub adjust : String → (V → V) → Dict V → Dict V
  adjust k f [] = []
  adjust k f ((j, v) ∷ m) = if j == k then (j, f v) ∷ adjust k f m else (j, v) ∷ adjust k f m

  pub lookup-insert :
      (key probe : String) (new : V) (dict : Dict V)
      → lookup probe (insert key new dict) ≡ (if key == probe then some new else lookup probe dict)
  unfolding insert lookup
  lookup-insert key probe new [] = refl
  lookup-insert key probe new ((at, old) ∷ dict) =
      ground
        (arith, lookup-insert key probe new dict, eq_iff at key, eq_iff at probe, eq_iff key probe)

  pub lookup-delete :
      (k j : String) (m : Dict V) → lookup j (delete k m) ≡ (if k == j then none else lookup j m)
  unfolding lookup delete
  lookup-delete k j [] = ground arith
  lookup-delete k j ((i, w) ∷ m) =
      ground (arith, eq_iff k j, eq_iff i k, eq_iff i j, lookup-delete k j m)

  pub lookup-adjust :
      (k j : String) (f : V → V) (m : Dict V)
      → lookup j (adjust k f m) ≡ (if k == j then Option.map f (lookup j m) else lookup j m)
  unfolding lookup adjust
  lookup-adjust k j f [] = ground arith
  lookup-adjust k j f ((i, w) ∷ m) =
      ground (arith, eq_iff k j, eq_iff i k, eq_iff i j, lookup-adjust k j f m)

  pub lookup-insert_self : (k : String) (v : V) (m : Dict V) → lookup k (insert k v m) ≡ some v
  lookup-insert_self k v m = simp (lookup-insert, eq_refl)

  -- No key stands twice.
  abbrev pub Missing : String → Dict V → Type 0
  Missing k m = All (λ e. e.0 ≢ k) m

  abbrev pub Distinct : Dict V → Type 0
  Distinct [] = Unit
  Distinct ((k, v) ∷ m) = Missing k m × Distinct m

  abbrev pub keep_values : (V → Bool) → Dict V → Dict V
  keep_values p = keep (λ e. p e.1)

  pub lookup-Missing : (k : String) (m : Dict V) → Missing k m → lookup k m ≡ none
  unfolding lookup
  lookup-Missing k [] h = refl
  lookup-Missing k ((j, v) ∷ m) h = ground (arith, eq_iff j k, lookup-Missing k m)

  insert-Missing :
      (k j : String) (v : V) (m : Dict V) → j ≢ k → Missing k m → Missing k (insert j v m)
  unfolding insert
  insert-Missing k j v [] d h = (d, tt)
  insert-Missing k j v ((i, w) ∷ m) d h = ground (arith, insert-Missing k j v m)

  delete-Missing : (k j : String) (m : Dict V) → Missing k m → Missing k (delete j m)
  unfolding delete
  delete-Missing k j [] h = tt
  delete-Missing k j ((i, w) ∷ m) h = ground (arith, delete-Missing k j m)

  adjust-Missing : (k j : String) (f : V → V) (m : Dict V) → Missing k m → Missing k (adjust j f m)
  unfolding adjust
  adjust-Missing k j f [] h = tt
  adjust-Missing k j f ((i, w) ∷ m) h = ground (arith, adjust-Missing k j f m)

  keep-Missing :
      (k : String) (p : String × V → Bool) (m : Dict V) → Missing k m → Missing k (keep p m)
  keep-Missing k p [] h = tt
  keep-Missing k p ((i, w) ∷ m) h = ground (arith, keep-Missing k p m)

  pub insert-Distinct : (k : String) (v : V) (m : Dict V) → Distinct m → Distinct (insert k v m)
  unfolding insert
  insert-Distinct k v [] d = (tt, tt)
  insert-Distinct k v ((j, w) ∷ m) d = elim (Bool-cases (j == k)) [
    | inl same ↦ rw same (ground (arith, eq_iff j k))
    | inr other ↦
        rw other
          (insert-Missing j k v m (ground (arith, eq_iff j k)) d.0, insert-Distinct k v m d.1)
  ]

  pub delete-Distinct : (k : String) (m : Dict V) → Distinct m → Distinct (delete k m)
  unfolding delete
  delete-Distinct k [] d = tt
  delete-Distinct k ((j, w) ∷ m) d =
      ground (arith, delete-Missing j k m d.0, delete-Distinct k m d.1)

  pub adjust-Distinct : (k : String) (f : V → V) (m : Dict V) → Distinct m → Distinct (adjust k f m)
  unfolding adjust
  adjust-Distinct k f [] d = tt
  adjust-Distinct k f ((j, w) ∷ m) d =
      ground (arith, adjust-Missing j k f m d.0, adjust-Distinct k f m d.1)

  pub keep-Distinct : (p : String × V → Bool) (m : Dict V) → Distinct m → Distinct (keep p m)
  keep-Distinct p [] d = tt
  keep-Distinct p ((j, w) ∷ m) d = ground (arith, keep-Missing j p m d.0, keep-Distinct p m d.1)

  -- What a sweep over the values leaves under a key.
  pub lookup-keep_values :
      (k : String) (p : V → Bool) (m : Dict V)
      → Distinct m
      → lookup k (keep_values p m)
        ≡ elim (lookup k m) [ none ↦ none | some v ↦ if p v then some v else none ]
  unfolding lookup
  lookup-keep_values k p [] d = refl
  lookup-keep_values k p ((j, v) ∷ m) d = ground (
    arith,
    eq_iff j k,
    lookup-keep_values k p m d.1,
    lookup-Missing k (keep_values p m),
    keep-Missing k (λ e. p e.1) m,
  )

  -- A property of every entry, under the writes.
  pub insert-All :
      (Q : String × V → Type 0) (k : String) (v : V) (m : Dict V)
      → Q (k, v)
      → All Q m
      → All Q (insert k v m)
  unfolding insert
  insert-All Q k v [] q h = (q, tt)
  insert-All Q k v ((j, w) ∷ m) q h = ground (arith, insert-All Q k v m)

  pub delete-All :
      (Q : String × V → Type 0) (k : String) (m : Dict V) → All Q m → All Q (delete k m)
  unfolding delete
  delete-All Q k [] h = tt
  delete-All Q k ((j, v) ∷ m) h = ground (arith, delete-All Q k m)

  pub adjust-All :
      (Q : String × V → Type 0) (k : String) (f : V → V) (m : Dict V)
      → ((j : String) (v : V) → Q (j, v) → Q (j, f v))
      → All Q m
      → All Q (adjust k f m)
  unfolding adjust
  adjust-All Q k f [] c h = tt
  adjust-All Q k f ((j, v) ∷ m) c h = ground (arith, c j v h.0, adjust-All Q k f m c h.1)

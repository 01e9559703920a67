-- ===== src/Base/Pairs.antt =====
-- Properties of all items of a list, and of all pairs of its items.
use mathlib.Core.List.{List, [], ◌∷◌}
use human_guard.Base.Lists.{All}

module _ {ℓ κ} {A : Type ℓ} where
  abbrev pub Pairwise : (A → A → Type κ) → List A → Type κ
  Pairwise R [] = Unit
  Pairwise R (x ∷ xs) = All (R x) xs × Pairwise R xs

  pub All-weaken : (P Q : A → Type κ) (xs : List A) → ((x : A) → P x → Q x) → All P xs → All Q xs
  All-weaken P Q [] c h = tt
  All-weaken P Q (x ∷ xs) c h = (c x h.0, All-weaken P Q xs c h.1)

-- ===== src/Errors.antt =====
-- backend/storage/errors.go: the errors that the storage layer names, and the result of a call.
-- A statement that the database refuses, wrapped or not, is `database`.
use human_guard.Base.{◌≡◌, refl, ◌⊎◌, inl, inr}

pub data Error : Type 0 where
  user_not_found user_already_exists invalid_user_id invalid_email : Error
  session_not_found session_already_exists session_expired : Error
  site_not_found site_already_exists blacklist_entry_not_found : Error
  api_key_not_found api_key_hash_already_exists database : Error

pub data Result {ℓ} (A : Type ℓ) : Type ℓ where
  ok : A → Result A
  err : Error → Result A

pub Result-cases {ℓ} :
    {A : Type ℓ} (r : Result A) → ((e : Error) × (r ≡ err e)) ⊎ ((a : A) × (r ≡ ok a))
Result-cases (ok a) = inr (a, refl)
Result-cases (err e) = inl (e, refl)

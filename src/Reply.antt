-- ===== src/Reply.antt =====
-- What the handlers of the management API answer with: `http.Error` with a text or with the text of
-- an error, `writeJSON` with an error or a value, a copied stream, a status alone, or nothing.
use human_guard.Base.{ℕ, String, Option, none, some}
use human_guard.Errors.{Error}

pub data Reply {ℓ} (A : Type ℓ) : Type ℓ where
  http_error : ℕ → String → Reply A
  failed : ℕ → Error → Reply A
  json_error : ℕ → String → Reply A
  json : ℕ → A → Reply A
  stream : A → Reply A
  no_content nothing_written panicked : Reply A

-- The status line of an answer; net/http sends 200 for a handler that writes nothing, and none for one
-- that panics.
abbrev pub status_of {ℓ} : {A : Type ℓ} → Reply A → Option ℕ
status_of (http_error status message) = some status
status_of (failed status e) = some status
status_of (json_error status message) = some status
status_of (json status value) = some status
status_of (stream contents) = some 200
status_of no_content = some 204
status_of nothing_written = some 200
status_of panicked = none

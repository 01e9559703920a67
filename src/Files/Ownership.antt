-- ===== src/Files/Ownership.antt =====
-- backend/handlers/file.go: whose files a request reaches.
use human_guard.Base.{String, ◌≡◌, refl, ◌⊎◌, inl, inr, none, ◌==◌, eq_iff, Bool-cases}
use human_guard.Errors.{Result-cases, ok}
use human_guard.Http.{parsed}
use human_guard.Auth.{Identity}
use human_guard.Reply.{http_error, json_error}
use human_guard.Files.{FileRecord, get_file}
use human_guard.Files.Uploads.{FileState, FileEnv}
use human_guard.Files.Access.{
  ShareBody, owned_file, download, serve_delete_file, serve_create_share,
}

module _ {S : Type 0} where
  -- The requester's own file stands under an identifier.
  abbrev pub Owns : FileEnv S → Identity → String → FileState S → Type 0
  Owns env who id p =
      (f : FileRecord) × (get_file env.faults id p.db ≡ ok f) × (f.user_id ≡ who.user_id)

  pub owned_file-Owns :
      (env : FileEnv S) (who : Identity) (id : String) (p : FileState S)
      → (Owns env who id p) ⊎ (owned_file env who id p ≡ none)
  owned_file-Owns env who id p = elim (Result-cases (get_file env.faults id p.db)) [
    | inl (e, missing) ↦ inr (rw (owned_file, missing) refl)
    | inr (f, found) ↦ elim (Bool-cases (f.user_id == who.user_id)) [
      | inl own ↦ inl (f, found, (eq_iff f.user_id who.user_id).0 own)
      | inr other ↦ inr (rw (owned_file, found, other) refl)
    ]
  ]

  -- A request for a file that is not the requester's is answered as for one that is missing: a download
  -- with 404, a deletion with 404 and no change, and no link is made for it.
  pub files_guarded :
      (env : FileEnv S) (who : Identity) (b : ShareBody) (p : FileState S)
      → Owns env who b.file_id p
        ⊎ ((download env who b.file_id p ≡ http_error 404 "not found")
            × (serve_delete_file env who b.file_id p ≡ (p, json_error 404 "file not found"))
            × ((serve_create_share env who (parsed b) p).0 ≡ p))
  unfolding download serve_delete_file serve_create_share
  files_guarded env who b p = elim (owned_file-Owns env who b.file_id p) [
    | inl own ↦ inl own
    | inr missing ↦ inr (
      rw (download, missing) refl,
      rw (serve_delete_file, missing) refl,
      elim (Bool-cases (who.user_id == "")) [
        | inl absent ↦ rw (serve_create_share, absent) refl
        | inr given ↦ rw (serve_create_share, given, missing) refl
      ],
    )
  ]

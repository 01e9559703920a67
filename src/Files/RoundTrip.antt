-- ===== src/Files/RoundTrip.antt =====
-- backend/handlers/file.go with backend/storage/file.go: a file that is uploaded can be downloaded.
use mathlib.Core.List.{flatten}
use human_guard.Base.{
  ◌++◌, ℤ, positive_part, ℕ, String, ◌≡◌, refl, sym, ap, ◌∙◌, inl, inr, Bool, true, false, ◌||◌,
  some, List, [], ◌∷◌, arith, ◌==◌, eq_iff, eq_refl, ltb, if◌then◌else◌, Bool-cases, Option-cases,
  any_of, adjust, Option, none,
}
use human_guard.Auth.{Identity}
use human_guard.Reply.{json, stream}
use human_guard.Files.{
  FileRecord, identified, is_file, create_file, get_file, find_file, insert_file, select_file,
}
use human_guard.Files.Uploads.{
  read_chunks, finished, Bytes, S3Client, FileState, FileEnv, Part, Form, contents_of, file_record,
  object_path, allowed_type, store_record, save_part, upload_parts, upload, begun, not_multipart,
  multipart,
}
use human_guard.Files.Access.{send, owned_file, owned_file, disposition, download}

-- The file that a form brings: its first part that is named "file".
abbrev pub first_file : List Part → Option Part
first_file [] = none
first_file (part ∷ parts) = if part.form_name == "file" then some part else first_file parts

contents_of_lem : (cs : List Bytes) → contents_of cs ≡ flatten cs
unfolding contents_of flatten
contents_of_lem [] = refl
contents_of_lem (c ∷ cs) = ap (λ x. c ++ x) (contents_of_lem cs)

module _ {S : Type 0} where
  -- An object that has been saved reads back whole.
  abbrev pub KeepsObjects : S3Client S → Type 0
  KeepsObjects s3 =
      (path : String) (contents : Bytes) (s : S) (size : ℕ)
      → (s3.save path contents s).1 ≡ some size
      → s3.get path (s3.save path contents s).0 ≡ some contents

  store_record_made :
      (env : FileEnv S) (f g : FileRecord) (p : FileState S)
      → (store_record env f p).1 ≡ json 201 g
      → (g ≡ identified env.new_file_id f)
        × ((store_record env f p).0 ≡ record p { db = record (p.db) { files = g ∷ p.db.files } })
  unfolding store_record create_file
  store_record_made env f g p made =
      elim (Bool-cases
        (env.faults insert_file || any_of (is_file (identified env.new_file_id f).id) p.db.files)) [
          | inl refused ↦ ground arith
          | inr up ↦ ground arith
        ]

  -- A file that stands under its identifier, with the object of a part at its path.
  pub record Holds (env : FileEnv S) (user : String) (part : Part) (f : FileRecord)
      (q : FileState S) : Type 0 where
    pub row : find_file f.id q.db.files ≡ some f
    pub owner : f.user_id ≡ user
    pub original : f.original_name ≡ part.file_name
    pub mime : f.mime_type ≡ part.mime_type
    pub digest : f.hash ≡ env.hash (contents_of part.chunks)
    pub object : env.s3.get f.path q.objects ≡ some (contents_of part.chunks)

  store_record-Holds :
      (env : FileEnv S) (user : String) (part : Part) (size : ℕ) (g : FileRecord) (p : FileState S)
      → env.s3.get (object_path env user part) p.objects ≡ some (contents_of part.chunks)
      → (store_record env (file_record env user part size) p).1 ≡ json 201 g
      → Holds env user part g (store_record env (file_record env user part size) p).0
  unfolding find_file
  store_record-Holds env user part size g p object made =
      let (same, after) = store_record_made env (file_record env user part size) g p made in
      record {
        row = (λ i. find_file g.id (after i).db.files) ∙ rw (find_file, eq_refl g.id) refl;
        owner = ap FileRecord.user_id same;
        original = ap FileRecord.original_name same;
        mime = ap FileRecord.mime_type same;
        digest = ap FileRecord.hash same;
        object = (λ i. env.s3.get (FileRecord.path (same i)) (after i).objects) ∙ object;
      }

  save_part-Holds :
      (env : FileEnv S) (user id : String) (total : ℕ) (part : Part) (g : FileRecord)
      (p : FileState S)
      → KeepsObjects env.s3
      → (save_part env user id total part p).1 ≡ json 201 g
      → Holds env user part g (save_part env user id total part p).0
  unfolding save_part
  save_part-Holds env user id total part g p law made =
      elim (Bool-cases (allowed_type part.mime_type)) [
        | inr barred ↦ ground arith
        | inl good ↦
            elim (Option-cases
              (env.s3.save (object_path env user part) (contents_of part.chunks) p.objects).1) [
                | inl failing ↦ ground arith
                | inr (size, saved) ↦
                    let q = record p {
                      objects =
                          (env.s3.save (object_path env user part) (contents_of part.chunks)
                            p.objects).0;
                      progress = adjust id finished (read_chunks id total 0 part.chunks p.progress);
                    } in
                    let step : save_part env user id total part p
                        ≡ store_record env (file_record env user part size) q =
                      rw (save_part, good, saved) refl in
                    let held =
                      store_record-Holds env user part size g q
                        (law (object_path env user part) (contents_of part.chunks) p.objects size
                          saved)
                        (sym (ap (λ x. x.1) step) ∙ made) in
                    rw step held
              ]
      ]

  -- The first file of the parts is held.
  abbrev pub HoldsFirst : FileEnv S → String → List Part → FileRecord → FileState S → Type 0
  HoldsFirst env user parts g q =
      (part : Part) × (first_file parts ≡ some part) × Holds env user part g q

  upload_parts-Holds :
      (env : FileEnv S) (user id : String) (total : ℕ) (ended : Bool) (parts : List Part)
      (g : FileRecord) (p : FileState S)
      → KeepsObjects env.s3
      → (upload_parts env user id total ended parts p).1 ≡ json 201 g
      → HoldsFirst env user parts g (upload_parts env user id total ended parts p).0
  unfolding upload_parts
  upload_parts-Holds env user id total true [] g p law made = ground arith
  upload_parts-Holds env user id total false [] g p law made = ground arith
  upload_parts-Holds env user id total ended (part ∷ parts) g p law made =
      elim (Bool-cases (part.form_name == "file")) [
        | inl named ↦
            let step : upload_parts env user id total ended (part ∷ parts) p
                ≡ save_part env user id total part p =
              rw (upload_parts, named) refl in
            (
              part,
              rw named refl,
              rw step (
                  save_part-Holds env user id total part g p law (sym (ap (λ x. x.1) step) ∙ made)),
            )
        | inr other ↦
            let step : upload_parts env user id total ended (part ∷ parts) p
                ≡ upload_parts env user id total ended parts p =
              rw (upload_parts, other) refl in
            let (chosen, first, held) =
              upload_parts-Holds env user id total ended parts g p law
                (sym (ap (λ x. x.1) step) ∙ made) in
            (chosen, rw other first, rw step held)
      ]

  upload-Holds :
      (env : FileEnv S) (who : Identity) (n : ℤ) (asked : String) (form : Form) (g : FileRecord)
      (p : FileState S)
      → KeepsObjects env.s3
      → (upload env who n asked form p).1 ≡ json 201 g
      → (parts : List Part) × (ended : Bool) × (form ≡ multipart parts ended)
        × HoldsFirst env who.user_id parts g (upload env who n asked form p).0
  unfolding upload
  upload-Holds env who n asked not_multipart g p law made = ground arith
  upload-Holds env who n asked (multipart parts ended) g p law made =
      elim (Bool-cases (who.user_id == "")) [
        | inl absent ↦ ground arith
        | inr given ↦ elim (Bool-cases (ltb 0 (positive_part n))) [
          | inr empty ↦ ground arith
          | inl long ↦
              let id = if asked == "" then env.new_upload_id else asked in
              let q = begun who.user_id id (positive_part n) p in
              let step : upload env who n asked (multipart parts ended) p
                  ≡ upload_parts env who.user_id id (positive_part n) ended parts q =
                rw (upload, given, long) refl in
              let held =
                upload_parts-Holds env who.user_id id (positive_part n) ended parts g q law
                  (sym (ap (λ x. x.1) step) ∙ made) in
              (parts, ended, refl, rw step held)
        ]
      ]

  -- An upload that answers 201 had a form with a part named "file", and can be followed by a download of
  -- the file by the same user: the answer has the type and the bytes of the first such part, the bytes
  -- of all its chunks in their order, and the file's row has its name and the hash of its bytes.
  -- This is so whatever else the form held and whatever identifier the upload has. The object store
  -- keeps what it has saved, and the database answers the query for a file.
  pub download-upload :
      (env : FileEnv S) (who : Identity) (n : ℤ) (asked : String) (form : Form) (g : FileRecord)
      (p : FileState S)
      → KeepsObjects env.s3
      → env.faults select_file ≡ false
      → (upload env who n asked form p).1 ≡ json 201 g
      → (parts : List Part) × (ended : Bool) × (part : Part) × (form ≡ multipart parts ended)
        × (first_file parts ≡ some part)
        × (g.original_name ≡ part.file_name)
        × (g.hash ≡ env.hash (flatten part.chunks))
        × (download env who g.id (upload env who n asked form p).0
            ≡ stream (record {
              content_type = part.mime_type;
              content_disposition = disposition g;
              contents = flatten part.chunks;
            }))
  unfolding download get_file
  download-upload env who n asked form g p law up made =
      let (parts, ended, whole, (part, first, held)) =
        upload-Holds env who n asked form g p law made in
      let own : (g.user_id == who.user_id) ≡ true = (eq_iff g.user_id who.user_id).1 held.owner in
      (
        parts,
        ended,
        part,
        whole,
        first,
        held.original,
        held.digest ∙ ap env.hash (contents_of_lem part.chunks),
        rw
            (
              download,
              owned_file,
              get_file,
              up,
              held.row,
              own,
              send,
              held.object,
              held.mime,
              contents_of_lem part.chunks,
            )
            refl,
      )

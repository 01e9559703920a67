-- ===== src/Files/Uploads.antt =====
-- backend/handlers/file.go: uploads, downloads and share links. The object store behind `S3Client` is a
-- parameter: a state S and three operations on it. SHA-256 in hexadecimal, `filepath.Ext`, the format of
-- the date and what is drawn are arguments. An error of the object store is `none` or `false`.
use Prim.Native.String.{◌++◌ as concat}
use human_guard.Base.{
  ℤ, positive_part, ◌/◌, ℕ, zero, suc, ◌+◌, ◌*◌, String, Bool, true, false, not, ◌||◌, Option, none,
  some, List, [], ◌∷◌, ◌++◌, ◌==◌, ltb, if◌then◌else◌, length, Dict, insert, adjust,
}
use human_guard.Clock.{Time}
use human_guard.Errors.{ok, err}
use human_guard.Auth.{Identity}
use human_guard.Reply.{Reply, json_error, json, nothing_written}
use human_guard.Files.{FileRecord, FileDb, FileFaults, create_file}

abbrev pub Bytes : Type 0
Bytes = List ℕ

pub record S3Client (S : Type 0) : Type 0 where
  pub save : String → Bytes → S → S × Option ℕ
  pub get : String → S → Option Bytes
  pub remove : String → S → S × Bool

pub record UploadProgress : Type 0 where
  pub upload_id : String
  pub user_id : String
  pub bytes_done : ℕ
  pub total_bytes : ℕ
  pub percentage : ℕ
  pub completed : Bool

pub record FileState (S : Type 0) : Type 0 where
  pub db : FileDb
  pub objects : S
  pub progress : Dict UploadProgress

pub record FileEnv (S : Type 0) : Type 0 where
  pub s3 : S3Client S
  pub faults : FileFaults
  pub now : Time
  pub hash : Bytes → String
  pub ext : String → String
  pub date : Time → String
  pub new_upload_id : String
  pub new_name : String
  pub new_file_id : String
  pub new_share_id : String
  pub token : Option String
  -- How many chunks a save that fails has read.
  pub read_before_failure : ℕ

-- A part of a form, with the chunks that its reader returns before it ends or fails.
pub record Part : Type 0 where
  pub form_name : String
  pub file_name : String
  pub mime_type : String
  pub chunks : List Bytes

-- A request's body: the parts that can be read, and whether `io.EOF` or another error follows them.
pub data Form : Type 0 where
  not_multipart : Form
  multipart : List Part → Bool → Form

unfoldable pub allowed_type : String → Bool
allowed_type t =
    t == "image/jpeg"
    || t == "image/png"
    || t == "image/gif"
    || t == "image/webp"
    || t == "application/pdf"
    || t == "text/plain"
    || t == "text/csv"
    || t == "application/zip"
    || t == "application/json"

abbrev pub advanced : ℕ → ℕ → UploadProgress → UploadProgress
advanced total bytes_read p = record p {
  bytes_done = bytes_read;
  percentage = bytes_read * 100 / total;
}

-- The thread that feeds the object store: every chunk that is not empty is counted. Whatever error
-- ends the reading, the pipe is closed as if the part were whole.
unfoldable pub read_chunks : String → ℕ → ℕ → List Bytes → Dict UploadProgress → Dict UploadProgress
read_chunks id total bytes_read [] m = m
read_chunks id total bytes_read (c ∷ cs) m =
    read_chunks id total (bytes_read + length c) cs
      (if ltb 0 (length c) then adjust id (advanced total (bytes_read + length c)) m else m)

unfoldable pub contents_of : List Bytes → Bytes
contents_of [] = []
contents_of (c ∷ cs) = c ++ contents_of cs

unfoldable pub first_chunks : ℕ → List Bytes → List Bytes
first_chunks zero cs = []
first_chunks (suc n) [] = []
first_chunks (suc n) (c ∷ cs) = c ∷ first_chunks n cs

abbrev pub finished : UploadProgress → UploadProgress
finished p = record p { completed = true; percentage = 100 }

module _ {S : Type 0} where
  abbrev pub safe_name : FileEnv S → Part → String
  safe_name env part = concat env.new_name (env.ext part.file_name)

  abbrev pub object_path : FileEnv S → String → Part → String
  object_path env user_id part =
      concat user_id (concat "/" (concat (env.date env.now) (concat "/" (safe_name env part))))

  abbrev pub file_record : FileEnv S → String → Part → ℕ → FileRecord
  file_record env user_id part size = record {
    id = env.new_file_id;
    user_id = user_id;
    name = safe_name env part;
    original_name = part.file_name;
    size = size;
    mime_type = part.mime_type;
    hash = env.hash (contents_of part.chunks);
    path = object_path env user_id part;
    created_at = env.now;
  }

  -- The row of a file that is saved; when it cannot be stored, the object is deleted again.
  unfoldable pub store_record :
      FileEnv S → FileRecord → FileState S → FileState S × Reply FileRecord
  store_record env f p =
      let (db, made) = create_file env.faults env.new_file_id f p.db in
      elim made [
        | err e ↦ (
          record p { db = db; objects = (env.s3.remove f.path p.objects).0 },
          json_error 500 "failed to save file metadata",
        )
        | ok row ↦ (record p { db = db }, json 201 row)
      ]

  unfoldable pub save_part :
      FileEnv S → String → String → ℕ → Part → FileState S → FileState S × Reply FileRecord
  save_part env user_id upload_id total part p =
      if not (allowed_type part.mime_type)
      then (p, json_error 415 "unsupported file type")
      else let (objects, saved) =
          env.s3.save (object_path env user_id part) (contents_of part.chunks) p.objects in
        elim saved [
          | none ↦ (
            record p {
              objects = objects;
              progress =
                  read_chunks upload_id total 0 (first_chunks env.read_before_failure part.chunks)
                    p.progress;
            },
            json_error 500 "failed to save file",
          )
          | some size ↦ store_record env (file_record env user_id part size) (record p {
            objects = objects;
            progress =
                adjust upload_id finished (read_chunks upload_id total 0 part.chunks p.progress);
          })
        ]

  -- The loop over the parts, which ends with the first one that is named "file".
  unfoldable pub upload_parts :
      FileEnv S
      → String
      → String
      → ℕ
      → Bool
      → List Part
      → FileState S
      → FileState S × Reply FileRecord
  upload_parts env user_id upload_id total ended [] p =
      (p, if ended then json_error 400 "no file provided" else nothing_written)
  upload_parts env user_id upload_id total ended (part ∷ parts) p =
      let rest = upload_parts env user_id upload_id total ended parts p in
      if part.form_name == "file" then save_part env user_id upload_id total part p else rest

  abbrev pub begun : String → String → ℕ → FileState S → FileState S
  begun user_id upload_id total p = record p {
    progress =
        insert upload_id
          (record {
            upload_id = upload_id;
            user_id = user_id;
            bytes_done = 0;
            total_bytes = total;
            percentage = 0;
            completed = false;
          })
          p.progress;
  }

  -- `upload_id` is that of the query, which may be empty.
  unfoldable pub upload :
      FileEnv S → Identity → ℤ → String → Form → FileState S → FileState S × Reply FileRecord
  upload env who content_length asked form p =
      let upload_id = if asked == "" then env.new_upload_id else asked in
      let total = positive_part content_length in
      let p' = begun who.user_id upload_id total p in
      if who.user_id == ""
      then (p, json_error 401 "unauthorized")
      else if not (ltb 0 total)
      then (p, json_error 400 "content-length required")
      else elim form [
        | not_multipart ↦ (p', json_error 400 "invalid multipart request")
        | multipart parts ended ↦ upload_parts env who.user_id upload_id total ended parts p'
      ]

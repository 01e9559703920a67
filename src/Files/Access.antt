-- ===== src/Files/Access.antt =====
-- backend/handlers/file.go: what is done with a file that is stored.
use Prim.Native.String.{◌++◌ as concat}
use human_guard.Base.{
  ℤ, positive_part, has_prefix, String, Option, none, some, List, ◌==◌, ltb, if◌then◌else◌, codes,
}
use human_guard.Clock.{Time, hour, duration, add_duration}
use human_guard.Errors.{Result, ok, err}
use human_guard.Http.{Body, parsed}
use human_guard.Auth.{Identity}
use human_guard.Reply.{Reply, http_error, json_error, json, stream}
use human_guard.Files.{
  FileRecord, ShareRecord, FileDb, get_file, delete_file, list_user_files, create_share,
  get_file_by_share_token,
}
use human_guard.Files.Uploads.{Bytes, FileState, FileEnv}

-- A file that is sent: its type, the header `Content-Disposition` and its bytes.
pub record Served : Type 0 where
  pub content_type : String
  pub content_disposition : String
  pub contents : Bytes

abbrev pub disposition : FileRecord → String
disposition f =
    concat (if has_prefix (codes f.mime_type) (codes "image/") then "inline" else "attachment")
      (concat "; filename=\"" (concat f.original_name "\""))

pub record ShareBody : Type 0 where
  pub file_id : String
  pub expires_in_hours : ℤ

-- The zero time for a number that is not positive.
abbrev pub share_expiry : Time → ℤ → Time
share_expiry now n =
    if ltb 0 (positive_part n) then add_duration now (duration (positive_part n) hour) else 0

abbrev pub new_share : Time → String → String → ShareBody → ShareRecord
new_share now user_id token b = record {
  id = "";
  file_id = b.file_id;
  token = token;
  shared_by = user_id;
  expires_at = share_expiry now b.expires_in_hours;
  created_at = now;
}

module _ {S : Type 0} where
  abbrev pub send : FileEnv S → FileRecord → S → Reply Served
  send env f objects = elim (env.s3.get f.path objects) [
    | none ↦ http_error 404 "file not found"
    | some contents ↦ stream (record {
      content_type = f.mime_type;
      content_disposition = disposition f;
      contents = contents;
    })
  ]

  abbrev pub owned_file : FileEnv S → Identity → String → FileState S → Option FileRecord
  owned_file env who id p = elim (get_file env.faults id p.db) [
    | err e ↦ none
    | ok f ↦ if f.user_id == who.user_id then some f else none
  ]

  unfoldable pub download : FileEnv S → Identity → String → FileState S → Reply Served
  download env who id p = elim (owned_file env who id p) [
    | none ↦ http_error 404 "not found"
    | some f ↦ send env f p.objects
  ]

  -- `DeleteFile` after the object is gone. The answer names the file by its original name.
  abbrev pub remove_row : FileEnv S → FileRecord → String → FileState S → FileState S × Reply String
  remove_row env f id p =
      let (db, done) = delete_file env.faults id p.db in
      elim done [
        | err e ↦ (record p { db = db }, json_error 500 "failed to delete file metadata")
        | ok _ ↦ (record p { db = db }, json 200 f.original_name)
      ]

  unfoldable pub serve_delete_file :
      FileEnv S → Identity → String → FileState S → FileState S × Reply String
  serve_delete_file env who id p = elim (owned_file env who id p) [
    | none ↦ (p, json_error 404 "file not found")
    | some f ↦
        let (objects, gone) = env.s3.remove f.path p.objects in
        if gone
        then remove_row env f id (record p { objects = objects })
        else (record p { objects = objects }, json_error 500 "failed to delete file from storage")
  ]

  unfoldable pub serve_list_files : FileEnv S → Identity → FileState S → Reply (List FileRecord)
  serve_list_files env who p =
      if who.user_id == ""
      then json_error 401 "unauthorized"
      else elim (list_user_files env.faults who.user_id p.db) [
        | err e ↦ json_error 500 "failed to list files"
        | ok files ↦ json 200 files
      ]

  abbrev pub share_reply :
      FileState S → String → FileDb × Result String → FileState S × Reply String
  share_reply p token (db, err e) = (record p { db = db }, json_error 500 "failed to create share")
  share_reply p token (db, ok _) = (record p { db = db }, json 200 token)

  unfoldable pub share_file :
      FileEnv S → Identity → ShareBody → FileState S → FileState S × Reply String
  share_file env who b p = elim env.token [
    | none ↦ (p, json_error 500 "failed to generate token")
    | some token ↦
        share_reply p token
          (create_share env.faults env.new_share_id (new_share env.now who.user_id token b) p.db)
  ]

  unfoldable pub serve_create_share :
      FileEnv S → Identity → Body ShareBody → FileState S → FileState S × Reply String
  serve_create_share env who body p = elim body [
    | parsed b ↦
        if who.user_id == ""
        then (p, json_error 401 "unauthorized")
        else elim (owned_file env who b.file_id p) [
          | none ↦ (p, json_error 404 "file not found")
          | some f ↦ share_file env who b p
        ]
    | _ ↦ (p, json_error 400 "invalid request")
  ]

  -- No identity is asked for: the token is enough.
  unfoldable pub get_by_share_token : FileEnv S → String → FileState S → Reply Served
  get_by_share_token env token p = elim (get_file_by_share_token env.faults env.now token p.db) [
    | err e ↦ http_error 404 "not found or expired"
    | ok f ↦ send env f p.objects
  ]

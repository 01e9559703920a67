-- ===== src/Files/Tests.antt =====
-- Files and links on concrete requests, with a dictionary as the object store.
use mathlib.Core.List.{flatten}
use human_guard.Base.{
  lookup-insert, pos, ◌+◌, ◌*◌, ◌≤◌, ◌<◌, ◌≡◌, refl, ◌∙◌, ◌⊎◌, Bool, true, false, some, [], ◌∷◌,
  arith, eq_refl, ltb, if◌then◌else◌, length, Dict, lookup, insert, delete, List,
}
use human_guard.Clock.{hour, second}
use human_guard.Auth.{Identity}
use human_guard.Http.{parsed}
use human_guard.Reply.{stream, http_error, json_error}
use human_guard.Files.{
  FileRecord, FileQuery, create_file, get_file, find_file, create_share, is_open,
}
use human_guard.Files.Uploads.{
  Bytes, S3Client, FileState, FileEnv, Part, Form, multipart, upload, upload_parts, save_part,
  store_record, file_record, allowed_type, contents_of, read_chunks,
}
use human_guard.Files.Access.{
  disposition, ShareBody, share_expiry, send, download, serve_delete_file, serve_create_share,
  share_file, get_by_share_token,
}
use human_guard.Files.RoundTrip.{KeepsObjects, first_file, download-upload}
use human_guard.Files.Ownership.{Owns, files_guarded}
use human_guard.Files.Sharing.{
  at_instant, is_open-share_expiry, get_by_share_token-serve_create_share,
}
use human_guard.Samples.{in_1970}

abbrev disk : S3Client (Dict Bytes)
disk = record {
  save = λ path contents s. (insert path contents s, some (length contents));
  get = lookup;
  remove = λ path s. (delete path s, true);
}

abbrev file_answering : FileQuery → Bool
file_answering q = false

abbrev file_env : FileEnv (Dict Bytes)
file_env = record {
  s3 = disk;
  faults = file_answering;
  now = in_1970;
  hash = λ contents. "digest";
  ext = λ name. ".txt";
  date = λ t. "1970/01/01";
  new_upload_id = "u1";
  new_name = "n1";
  new_file_id = "f1";
  new_share_id = "h1";
  token = some "token";
  read_before_failure = 0;
}

abbrev ann_request : Identity
ann_request = record { user_id = "ann"; role = "user"; session_id = "s1"; api_key_id = "" }

abbrev stranger : Identity
stranger = record { user_id = "bo"; role = "admin"; session_id = "s2"; api_key_id = "" }

abbrev notes : Part
notes = record {
  form_name = "file";
  file_name = "notes.txt";
  mime_type = "text/plain";
  chunks = (104 ∷ 105 ∷ []) ∷ (33 ∷ []) ∷ [];
}

abbrev title : Part
title = record { form_name = "title"; file_name = ""; mime_type = ""; chunks = [] }

abbrev form : Form
form = multipart (title ∷ notes ∷ []) true

abbrev nothing_stored : FileState (Dict Bytes)
nothing_stored = record { db = record { files = []; shares = [] }; objects = []; progress = [] }

disk-KeepsObjects : KeepsObjects disk
disk-KeepsObjects path contents s size saved =
    lookup-insert path path contents s ∙ rw (eq_refl path) refl

abbrev notes_record : FileRecord
notes_record = file_record file_env "ann" notes 3

abbrev notes_stored : FileState (Dict Bytes)
notes_stored = record {
  db = record { files = notes_record ∷ []; shares = [] };
  objects = ("ann/1970/01/01/n1.txt", 104 ∷ 105 ∷ 33 ∷ []) ∷ [];
  progress = [];
}

abbrev two_hours : ShareBody
two_hours = record { file_id = "f1"; expires_in_hours = pos 2 }

download-upload_example :
    (parts : List Part) × (ended : Bool) × (part : Part) × (form ≡ multipart parts ended)
    × (first_file parts ≡ some part)
    × (notes_record.original_name ≡ part.file_name)
    × (notes_record.hash ≡ "digest")
    × (download file_env ann_request "f1"
          (upload file_env ann_request (pos 200) "" form nothing_stored).0
        ≡ stream (record {
          content_type = part.mime_type;
          content_disposition = disposition notes_record;
          contents = flatten part.chunks;
        }))
unfolding upload upload_parts save_part store_record create_file allowed_type contents_of
    read_chunks
download-upload_example =
    download-upload file_env ann_request (pos 200) "" form notes_record nothing_stored
      disk-KeepsObjects refl refl

files_guarded_example :
    Owns file_env stranger "f1" notes_stored
    ⊎ ((download file_env stranger "f1" notes_stored ≡ http_error 404 "not found")
        × (serve_delete_file file_env stranger "f1" notes_stored
            ≡ (notes_stored, json_error 404 "file not found"))
        × ((serve_create_share file_env stranger (parsed two_hours) notes_stored).0 ≡ notes_stored))
files_guarded_example = files_guarded file_env stranger two_hours notes_stored

get_by_share_token-serve_create_share_example :
    get_by_share_token
      (at_instant (in_1970 + hour) file_env)
      "token"
      (serve_create_share file_env ann_request (parsed two_hours) notes_stored).0
    ≡ (if is_open (in_1970 + hour) (share_expiry in_1970 (pos 2))
        then send file_env notes_record notes_stored.objects
        else http_error 404 "not found or expired")
unfolding serve_create_share share_file create_share get_file find_file contents_of
get_by_share_token-serve_create_share_example =
    get_by_share_token-serve_create_share file_env ann_request two_hours notes_stored "token"
      notes_record (in_1970 + hour) refl refl refl

is_open-share_expiry_example :
    ((2_600_000 ≤ 2_562_047)
      × (is_open (in_1970 + second) (share_expiry in_1970 (pos 2_600_000))
          ≡ ltb (in_1970 + second) (in_1970 + 2_600_000 * hour)))
    ⊎ ((2_562_047 < 2_600_000)
        × (is_open (in_1970 + second) (share_expiry in_1970 (pos 2_600_000)) ≡ true))
is_open-share_expiry_example =
    is_open-share_expiry in_1970 (in_1970 + second) 2_600_000 (omega arith) (omega arith)
      (omega arith) (omega arith)

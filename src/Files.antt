-- ===== src/Files.antt =====
-- backend/storage/file.go and share.go: the rows of uploaded files and of the links that share them. The
-- tables have unique identifiers and unique tokens, a link stands only with its file, and a file that is
-- deleted takes its links along (backend/migrations/001_init_up.sql). The callers only ask whether a
-- call has failed, so every error, a missing row included, is `database`.
pub mod Uploads
pub mod Access
pub mod Ownership
pub mod RoundTrip
pub mod Sharing
mod Tests
use human_guard.Base.{
  ℤ, pos, negsuc, positive_part, ◌/◌, ◌%◌, Char, lower_text, upper_text, byte_len, codes,
  has_prefix, Pairwise, All-weaken, All-keep, ℕ, zero, suc, ◌+◌, ◌-◌, ◌*◌, ◌≤◌, ◌<◌, String, ◌≡◌,
  refl, sym, ap, ◌∙◌, ◌≢◌, ◌↔◌, ◌⊎◌, inl, inr, Bool, true, false, not, ◌&&◌, ◌||◌, Option, none,
  some, List, [], ◌∷◌, ◌++◌, map, arith, ◌==◌, eq_iff, eq_refl, ltb, leb, eqb, if◌then◌else◌,
  Bool-cases, Option-cases, length, keep, count_if, any_of, All, Dict, lookup, insert, delete,
  adjust,
}
use human_guard.Clock.{Time, second, before, after}
use human_guard.Errors.{Result, ok, err, database}

pub record FileRecord : Type 0 where
  pub id : String
  pub user_id : String
  pub name : String
  pub original_name : String
  pub size : ℕ
  pub mime_type : String
  pub hash : String
  pub path : String
  pub created_at : Time

pub record ShareRecord : Type 0 where
  pub id : String
  pub file_id : String
  pub token : String
  pub shared_by : String
  pub expires_at : Time
  pub created_at : Time

pub record FileDb : Type 0 where
  pub files : List FileRecord
  pub shares : List ShareRecord

pub data FileQuery : Type 0 where
  insert_file select_file remove_file select_files insert_share select_shared : FileQuery

-- Whether the database refuses a statement.
abbrev pub FileFaults : Type 0
FileFaults = FileQuery → Bool

abbrev pub is_file : String → FileRecord → Bool
is_file id f = f.id == id

unfoldable pub find_file : String → List FileRecord → Option FileRecord
find_file id [] = none
find_file id (f ∷ fs) = if is_file id f then some f else find_file id fs

-- `CreateFile` draws an identifier for a record that has none.
abbrev pub identified : String → FileRecord → FileRecord
identified fresh f = record f { id = if f.id == "" then fresh else f.id }

unfoldable pub create_file : FileFaults → String → FileRecord → FileDb → FileDb × Result FileRecord
create_file faults fresh f db =
    let f' = identified fresh f in
    if faults insert_file || any_of (is_file f'.id) db.files
    then (db, err database)
    else (record db { files = f' ∷ db.files }, ok f')

abbrev pub found_file : Option FileRecord → Result FileRecord
found_file none = err database
found_file (some f) = ok f

unfoldable pub get_file : FileFaults → String → FileDb → Result FileRecord
get_file faults id db =
    if faults select_file then err database else found_file (find_file id db.files)

-- A row that is missing is no error.
unfoldable pub delete_file : FileFaults → String → FileDb → FileDb × Result (Unit {0})
delete_file faults id db = if faults remove_file then (db, err database) else (
  record {
    files = keep (λ f. not (is_file id f)) db.files;
    shares = keep (λ s. not (s.file_id == id)) db.shares;
  },
  ok tt,
)

unfoldable pub insert_file_by_age : FileRecord → List FileRecord → List FileRecord
insert_file_by_age f [] = f ∷ []
insert_file_by_age f (g ∷ gs) =
    let rest = insert_file_by_age f gs in
    if ltb f.created_at g.created_at then g ∷ rest else f ∷ g ∷ gs

-- `ORDER BY created_at DESC`.
unfoldable pub newest_files_first : List FileRecord → List FileRecord
newest_files_first [] = []
newest_files_first (f ∷ fs) = insert_file_by_age f (newest_files_first fs)

unfoldable pub list_user_files : FileFaults → String → FileDb → Result (List FileRecord)
list_user_files faults user_id db =
    if faults select_files
    then err database
    else ok (newest_files_first (keep (λ f. f.user_id == user_id) db.files))

abbrev pub clashes_share : ShareRecord → ShareRecord → Bool
clashes_share s t = t.id == s.id || t.token == s.token

unfoldable pub create_share : FileFaults → String → ShareRecord → FileDb → FileDb × Result String
create_share faults fresh share db =
    let s = record share { id = fresh } in
    if faults insert_share
      || any_of (clashes_share s) db.shares
      || not (any_of (is_file s.file_id) db.files)
    then (db, err database)
    else (record db { shares = s ∷ db.shares }, ok s.token)

-- '1970-01-01'.
abbrev pub epoch : Time
epoch = 62_135_596_800 * second

-- `expires_at < '1970-01-01' OR expires_at > NOW()`; the column is never NULL, since the record holds a
-- time and not a pointer.
abbrev pub is_open : Time → Time → Bool
is_open now expires_at = before expires_at epoch || after expires_at now

-- The file of the first link with the token that is still open.
unfoldable pub shared_file : Time → String → List ShareRecord → List FileRecord → Option FileRecord
shared_file now token [] files = none
shared_file now token (s ∷ ss) files =
    let rest = shared_file now token ss files in
    if s.token == token && is_open now s.expires_at
    then elim (find_file s.file_id files) [ none ↦ rest | some f ↦ some f ]
    else rest

unfoldable pub get_file_by_share_token : FileFaults → Time → String → FileDb → Result FileRecord
get_file_by_share_token faults now token db =
    if faults select_shared
    then err database
    else found_file (shared_file now token db.shares db.files)

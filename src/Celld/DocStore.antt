-- ===== src/Celld/DocStore.antt =====
-- celld/json_doc_store.hpp: documents of one kind, the files of a directory with a suffix. A
-- directory that does not exist is one without files. The names of documents are those of files in
-- that directory (is_file_name): the code joins a name to the path of the directory as it is, so that
-- one with a separator in it reaches other directories, which are not in the model.
-- `title_of` is the "name" of a document, if it is JSON and has one, and `stem` that of a path.
pub mod Files
use robonode.Prelude.{
  ℕ, ◌+◌, ◌-◌, Bool, true, false, not, is_empty, ◌||◌, ◌&&◌, ◌==◌, if◌then◌else◌, ltb, Option, none,
  some, List, [], ◌∷◌, ◌++◌, length, Text, bytes, text_eq, decimal_digits,
}
use robonode.Core.Map.{Map, find, contains, assign, erase}
use robonode.Core.Result.{Result, ok, err, Status, success}

pub record DocEntry : Type 0 where
  pub name : Text
  pub file : Text

-- The files of `dir_`, `suffix_`, and the count of `next_write`.
pub record JsonDocStore : Type 0 where
  pub files : Map Text
  pub suffix : Text
  pub writes : ℕ

pub data StoreError : Type 0 where
  no_such_document cannot_write cannot_replace no_such_entry : Text → StoreError

-- What the file system answers to a save: whether the file is opened; what is in it if not all could
-- be written, where the stream says so at once, and where that shows only as the stream is closed,
-- when the code no longer asks; and whether the file is renamed.
pub record Answers : Type 0 where
  pub opens : Bool
  pub cut_short : Option Text
  pub cut_at_close : Option Text
  pub renames : Bool

-- No path: not empty, without a separator, and not one of the two that name directories.
unfoldable pub no_separator : Text → Bool
no_separator [] = true
no_separator (b ∷ s) = not (b == 47) && no_separator s

unfoldable pub is_file_name : Text → Bool
unfolding no_separator text_eq
is_file_name file =
    no_separator file
    && not (is_empty file || text_eq file (bytes ".") || text_eq file (bytes ".."))

unfoldable pub starts_with : Text → Text → Bool
starts_with [] s = true
starts_with (a ∷ p) [] = false
starts_with (a ∷ p) (b ∷ s) = a == b && starts_with p s

-- `s.find(p) != npos`
unfoldable pub includes : Text → Text → Bool
unfolding starts_with
includes p [] = starts_with p []
includes p (b ∷ s) = starts_with p (b ∷ s) || includes p s

-- The last `n` bytes, or all of fewer.
unfoldable pub from : ℕ → Text → Text
from n [] = []
from n (b ∷ s) = if ltb (length s) n then b ∷ s else from n s

-- `sweep_staging`
unfoldable pub sweep : Map Text → Map Text
unfolding includes
sweep [] = []
sweep ((file, body) ∷ m) =
    let rest = sweep m in if includes (bytes ".part") file then rest else (file, body) ∷ rest

unfoldable pub open_store : Map Text → Text → ℕ → JsonDocStore
unfolding sweep
open_store files suffix writes = record { files = sweep files; suffix = suffix; writes = writes }

unfoldable pub matches : Text → Text → Bool
unfolding from text_eq
matches suffix file =
    ltb (length suffix) (length file) && text_eq (from (length suffix) file) suffix

module _ (title_of : Text → Option Text) (stem : Text → Text) where
  unfoldable pub entry_of : Text → Option Text → DocEntry
  entry_of file none = record { name = stem file; file = file }
  entry_of file (some title) = record { name = title; file = file }

  -- The loop of `list`: the files are in the order of their names.
  unfoldable pub entries : Text → Map Text → List DocEntry
  unfolding matches entry_of
  entries suffix [] = []
  entries suffix ((file, body) ∷ m) =
      let rest = entries suffix m in
      if matches suffix file then entry_of file (title_of body) ∷ rest else rest

  unfoldable pub list_documents : JsonDocStore → List DocEntry
  unfolding entries
  list_documents s = entries s.suffix s.files

-- `load`, from the opening of the file.
abbrev pub found_document : Text → Option Text → Result StoreError Text
found_document file none = err (no_such_document file)
found_document file (some body) = ok body

-- Of the name of a file: a path in its place is opened outside the model, and so in save and remove.
unfoldable pub load : Text → JsonDocStore → Result StoreError Text
unfolding find
load file s = found_document file (find file s.files)

-- `staging`
unfoldable pub staging : Text → ℕ → Text
unfolding decimal_digits
staging file n = file ++ bytes ".part" ++ decimal_digits 20 n

unfoldable pub save_written : Text → Text → Text → Bool → Map Text → Map Text × Status StoreError
unfolding assign erase
save_written file body part renamed files =
    if renamed
    then (assign file body (erase part files), success)
    else (erase part files, err (cannot_replace file))

-- What the closed file holds.
unfoldable pub closed_with : Text → Option Text → Text
closed_with json none = json
closed_with json (some some_of_it) = some_of_it

-- `f` is tested before it is closed, so that what is lost only then is not seen.
unfoldable pub save_opened : Text → Text → Text → Answers → Map Text → Map Text × Status StoreError
unfolding assign save_written closed_with
save_opened file json part io files = elim (io.cut_short) [
  | some some_of_it ↦ (assign part some_of_it files, err (cannot_write file))
  | none ↦
      let body = closed_with json io.cut_at_close in
      save_written file body part io.renames (assign part body files)
]

unfoldable pub save : Text → Text → Answers → JsonDocStore → JsonDocStore × Status StoreError
unfolding save_opened staging
save file json io s =
    let (files, st) =
      if io.opens
      then save_opened file json (staging file s.writes) io s.files
      else (s.files, err (cannot_write file)) in
    (record s { files = files; writes = s.writes + 1 }, st)

unfoldable pub remove : Text → JsonDocStore → JsonDocStore × Status StoreError
unfolding contains erase
remove file s =
    if contains file s.files
    then (record s { files = erase file s.files }, success)
    else (s, err (no_such_entry file))

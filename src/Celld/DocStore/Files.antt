-- ===== src/Celld/DocStore/Files.antt =====
-- What the documents of celld/json_doc_store.hpp are after a save, and after the store is opened.
use robonode.Prelude.{
  ℕ, ◌+◌, ◌++◌, append_assoc, decimal_digits, ◌≡◌, refl, ◌∙◌, ap, Bool, true, false, Bool-cases,
  inl, inr, if◌then◌else◌, Option, none, some, [], ◌∷◌, Text, bytes, text_eq, text_eq_iff, arith,
}
use robonode.Core.Map.{Map, find, assign, erase, find-assign, find-assign_other, find-erase_other}
use robonode.Core.Result.{ok, err, Status}
use robonode.Celld.DocStore.{
  JsonDocStore, Answers, StoreError, no_such_document, cannot_write, includes, sweep,
  found_document, open_store, load, staging, closed_with, is_file_name, save_written, save_opened,
  save,
}

-- Whether it is one of the files that opening the store sweeps away.
abbrev pub swept : Text → Bool
swept file = includes (bytes ".part") file

if_true : {b : Bool} {x : Option Text} (y : Option Text) → b ≡ true → (if b then x else y) ≡ x
if_true y h = rw h refl

pub find-sweep : (k : Text) (m : Map Text) → find k (sweep m) ≡ (if swept k then none else find k m)
unfolding find sweep
find-sweep k [] = ground arith
find-sweep k ((file, body) ∷ m) = elim (Bool-cases (swept file)) [
  | inl s ↦ elim (Bool-cases (text_eq k file)) [
    | inl e ↦
        let k_swept : swept k ≡ true = rw ((text_eq_iff k file).0 e) s in
        let rest : find k (sweep m) ≡ none = find-sweep k m ∙ if_true (find k m) k_swept in
        rw (s, k_swept) rest
    | inr e ↦ rw (s, e) (find-sweep k m)
  ]
  | inr s ↦ elim (Bool-cases (text_eq k file)) [
    | inl e ↦
        let k_kept : swept k ≡ false = rw ((text_eq_iff k file).0 e) s in rw (s, k_kept, e) refl
    | inr e ↦ rw (s, e) (find-sweep k m)
  ]
]

-- The documents besides the one saved, and besides the name that the write is staged under.
abbrev pub Elsewhere : Text → JsonDocStore → Text → Type 0
Elsewhere file s k = (text_eq k file ≡ false) × (text_eq k (staging file s.writes) ≡ false)

-- What a reader finds: after a save that succeeds, the document as saved, but where the file was cut
-- as it was closed, what is left of it; after one that fails, what was there before.
abbrev pub SaveEnds :
    Text → Text → Answers → JsonDocStore → JsonDocStore × Status StoreError → Type 0
SaveEnds file json io s (s', ok _) = load file s' ≡ ok (closed_with json io.cut_at_close)
SaveEnds file json io s (s', err why) = load file s' ≡ load file s

-- The same of the files.
abbrev FilesEnd : Text → Text → Text → Map Text → Map Text × Status StoreError → Type 0
FilesEnd file json k m (m', ok _) = (find file m' ≡ some json) × (find k m' ≡ find k m)
FilesEnd file json k m (m', err why) = (find file m' ≡ find file m) × (find k m' ≡ find k m)

text_eq-longer : (s t : Text) (b : ℕ) → text_eq s (s ++ b ∷ t) ≡ false
unfolding text_eq
text_eq-longer [] t b = refl
text_eq-longer (a ∷ s) t b = ground (arith, text_eq-longer s t b)

text_eq-staging : (file : Text) (n : ℕ) → text_eq file (staging file n) ≡ false
unfolding staging
text_eq-staging file n =
    rw (append_assoc file (bytes ".part") (decimal_digits 20 n)) (text_eq-longer file _ 46)

module _ (file json part k : Text) (m : Map Text) (staged : text_eq file part ≡ false)
    (other : text_eq k file ≡ false) (unstaged : text_eq k part ≡ false) where
  written-FilesEnd :
      (renamed : Bool)
      → FilesEnd file json k m (save_written file json part renamed (assign part json m))
  unfolding save_written
  written-FilesEnd true = (
    find-assign file json (erase part (assign part json m)),
    find-assign_other k file json (erase part (assign part json m)) other
        ∙ find-erase_other k part (assign part json m) unstaged
        ∙ find-assign_other k part json m unstaged,
  )
  written-FilesEnd false = (
    find-erase_other file part (assign part json m) staged
        ∙ find-assign_other file part json m staged,
    find-erase_other k part (assign part json m) unstaged
        ∙ find-assign_other k part json m unstaged,
  )

module _ (file json part k : Text) (m : Map Text) (staged : text_eq file part ≡ false)
    (other : text_eq k file ≡ false) (unstaged : text_eq k part ≡ false) where
  opened-FilesEnd :
      (io : Answers)
      → FilesEnd file (closed_with json io.cut_at_close) k m (save_opened file json part io m)
  unfolding save_opened
  opened-FilesEnd io = go io.cut_short
    where
      go :
          (c : Option Text)
          → FilesEnd file
              (closed_with json io.cut_at_close)
              k
              m
              (save_opened file json part (record io { cut_short = c }) m)
      go none =
          written-FilesEnd file (closed_with json io.cut_at_close) part k m staged other unstaged
            io.renames
      go (some cut) =
          (find-assign_other file part cut m staged, find-assign_other k part cut m unstaged)

module _ (file json k : Text) (io : Answers) (s : JsonDocStore) where
  Files-SaveEnds :
      (x : Map Text × Status StoreError)
      → FilesEnd file (closed_with json io.cut_at_close) k s.files x
      → SaveEnds file json io s (record s { files = x.0; writes = s.writes + 1 }, x.1)
        × (load k (record s { files = x.0; writes = s.writes + 1 }) ≡ load k s)
  unfolding load
  Files-SaveEnds (m, ok _) (saved, others) =
      (ap (found_document file) saved, ap (found_document k) others)
  Files-SaveEnds (m, err why) (kept, others) =
      (ap (found_document file) kept, ap (found_document k) others)

  -- In a store whose documents go by the names of files: a reader finds a document as it was saved,
  -- if the save succeeds and the file was not cut as it was closed, and what is left of it, if it was;
  -- and as it was before, if the save fails; and every other document as it was, but for what the
  -- write is staged under.
  pub save-SaveEnds :
      is_file_name file ≡ true
      → is_file_name k ≡ true
      → Elsewhere file s k
      → SaveEnds file json io s (save file json io s) × (load k (save file json io s).0 ≡ load k s)
  unfolding save
  save-SaveEnds _ _ (other, unstaged) = elim (Bool-cases (io.opens)) [
    | inl o ↦ rw o (
        Files-SaveEnds (save_opened file json (staging file s.writes) io s.files) (
          opened-FilesEnd file json (staging file s.writes) k s.files
            (text_eq-staging file s.writes) other unstaged io))
    | inr o ↦ rw o (Files-SaveEnds (s.files, err (cannot_write file)) (refl, refl))
  ]

-- Opening a store leaves every document but those whose names have ".part" in them: also one whose
-- name ends in the suffix of the store is swept away.
pub open_store-swept :
    (files : Map Text) (suffix : Text) (writes : ℕ) (file : Text)
    → load file (open_store files suffix writes) ≡ (
        if swept file
        then err (no_such_document file)
        else load file (record { files = files; suffix = suffix; writes = writes }))
unfolding load open_store
open_store-swept files suffix writes file =
    ap (found_document file) (find-sweep file files) ∙ go (swept file)
  where
    go :
        (b : Bool)
        → found_document file (if b then none else find file files)
          ≡ (if b then err (no_such_document file) else found_document file (find file files))
    go true = refl
    go false = refl

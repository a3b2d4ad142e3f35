-- ===== src/Celld/DocTests.antt =====
-- The theorems on the document store, at a store of two documents.
use robonode.Prelude.{◌≡◌, refl, true, none, some, [], ◌∷◌, Text, bytes, text_eq}
use robonode.Core.Map.{Map}
use robonode.Core.Result.{err, success}
use robonode.Celld.DocStore.{
  JsonDocStore, Answers, no_such_document, includes, matches, open_store, load, staging, save,
  is_file_name,
}
use robonode.Celld.DocStore.Files.{SaveEnds, save-SaveEnds, open_store-swept}

abbrev files : Map Text
files = (bytes "a.app.json", bytes "{}") ∷ (bytes "gear.part.app.json", bytes "[]") ∷ []

abbrev store : JsonDocStore
store = record { files = files; suffix = bytes ".app.json"; writes = 0 }

abbrev answers : Answers
answers = record { opens = true; cut_short = none; cut_at_close = none; renames = true }

-- It is a document of the store.
gear_matches : matches (bytes ".app.json") (bytes "gear.part.app.json") ≡ true
unfolding matches
gear_matches = refl

save-SaveEnds_example :
    SaveEnds
      (bytes "a.app.json")
      (bytes "[1]")
      answers
      store
      (save (bytes "a.app.json") (bytes "[1]") answers store)
    × (load (bytes "gear.part.app.json") (save (bytes "a.app.json") (bytes "[1]") answers store).0
        ≡ load (bytes "gear.part.app.json") store)
unfolding staging text_eq is_file_name
save-SaveEnds_example =
    save-SaveEnds (bytes "a.app.json") (bytes "[1]") (bytes "gear.part.app.json") answers store refl
      refl (refl, refl)

-- A file that is cut as it is closed is saved all the same.
save-cut :
    (save
      (bytes "a.app.json")
      (bytes "[1]")
      (record answers { cut_at_close = some (bytes "[") })
      store).1
    ≡ success
unfolding save
save-cut = refl

open_store-swept_example :
    load (bytes "gear.part.app.json") (open_store files (bytes ".app.json") 0)
    ≡ err (no_such_document (bytes "gear.part.app.json"))
unfolding includes
open_store-swept_example = open_store-swept files (bytes ".app.json") 0 (bytes "gear.part.app.json")

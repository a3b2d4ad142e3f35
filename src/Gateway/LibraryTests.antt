-- ===== src/Gateway/LibraryTests.antt =====
-- The theorems on the documents of a platform, at a library that ships one application.
use robonode.Prelude.{◌≡◌, refl, true, none, [], ◌∷◌, Text, bytes, text_eq, if◌then◌else◌}
use robonode.Core.Result.{ok, err, Status, success}
use robonode.Celld.DocStore.{JsonDocStore, Answers, is_file_name}
use robonode.Gateway.Library.{Platform, key_of, doc, save_doc}
use robonode.Gateway.Library.Isolated.{save_doc-isolated, save_doc-doc}

abbrev shipped : JsonDocStore
shipped = record {
  files = (bytes "sort.app.json", bytes "{}") ∷ [];
  suffix = bytes ".app.json";
  writes = 0;
}

abbrev platform : Platform
platform = record {
  library = (bytes "apps", shipped) ∷ [];
  sessions = record { spaces = []; disk = λ key kind. [] };
}

-- Any document but the empty one.
abbrev not_empty : Text → Text → Text → Status Text
not_empty = λ kind json file. if text_eq json [] then err file else success

abbrev answers : Answers
answers = record { opens = true; cut_short = none; cut_at_close = none; renames = true }

-- The shipped document is what a session reads that has none of its own.
doc_shipped :
    (doc {E = Text} (bytes "apps") (bytes "sort.app.json") (bytes "ann") platform).1
    ≡ ok (bytes "{}")
unfolding doc
doc_shipped = refl

save_doc-isolated_example :
    (doc {E = Text}
      (bytes "apps")
      (bytes "sort.app.json")
      (bytes "bob")
      (save_doc not_empty
        (bytes "apps")
        (bytes "sort.app.json")
        (bytes "[1]")
        (bytes "ann")
        answers
        platform).0).1
    ≡ (doc (bytes "apps") (bytes "sort.app.json") (bytes "bob") platform).1
unfolding key_of text_eq is_file_name
save_doc-isolated_example =
    save_doc-isolated not_empty (bytes "apps") (bytes "sort.app.json") (bytes "[1]") (bytes "ann")
      (bytes "bob") (bytes "apps") (bytes "sort.app.json") answers platform refl refl refl refl refl

save_doc-doc_example :
    (not_empty (bytes "apps") (bytes "[1]") (bytes "sort.app.json") ≡ success)
    × ((doc {E = Text}
          (bytes "apps")
          (bytes "sort.app.json")
          (bytes "ann")
          (save_doc not_empty
            (bytes "apps")
            (bytes "sort.app.json")
            (bytes "[1]")
            (bytes "ann")
            answers
            platform).0).1
        ≡ ok (bytes "[1]"))
unfolding save_doc key_of is_file_name
save_doc-doc_example =
    save_doc-doc not_empty (bytes "apps") (bytes "sort.app.json") (bytes "[1]") (bytes "ann")
      answers platform refl refl refl refl

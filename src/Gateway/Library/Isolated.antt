-- ===== src/Gateway/Library/Isolated.antt =====
-- What the sessions of gateway/workspace.hpp see of each other's documents.
use robonode.Prelude.{
  ◌≡◌, refl, sym, ◌∙◌, ap, Bool, true, false, Option, none, some, Text, if◌then◌else◌, text_eq,
  arith,
}
use robonode.Core.Map.{Map, find, assign, find-assign, find-assign_other}
use robonode.Core.Result.{Result, ok, err, Status, success}
use robonode.Celld.DocStore.{
  JsonDocStore, StoreError, Answers, load, found_document, save, save_opened, save_written,
  is_file_name, closed_with,
}
use robonode.Gateway.Library.{
  Workspace, Sessions, Platform, LibraryError, key_of, space_of, open_session, shadowed, at_kind,
  own_or_shipped, doc, as_library, put_back, on_store, in_session, save_valid, save_doc,
}

-- What a session finds in its space and in the library.
abbrev found : {E : Type 0} → Text → Text → Text → Platform → Result (LibraryError E) Text
found kind file key p =
    shadowed file (find kind (space_of (find key p.sessions.spaces) (p.sessions.disk key)))
      (find kind p.library)

-- Opening the space of a key leaves those of the others.
find-open_session :
    (j key : Text) (s : Sessions)
    → text_eq j key ≡ false
    → find j (open_session key s).0.spaces ≡ find j s.spaces
unfolding open_session
find-open_session j key s h = find-assign_other j key _ s.spaces h

module _ (E : Type 0) where
  -- The space of another key, what is on disk and the library stay.
  abbrev SameFor : Text → Platform → Platform × Status (LibraryError E) → Type 0
  SameFor j p (p', st) =
      (find j p'.sessions.spaces ≡ find j p.sessions.spaces)
      × (p'.sessions.disk ≡ p.sessions.disk)
      × (p'.library ≡ p.library)

  on_store-other :
      (j key kind : Text) (ws : Workspace) (s : Sessions)
      (op : JsonDocStore → JsonDocStore × Status StoreError) (store : Option JsonDocStore)
      → text_eq j key ≡ false
      → let s' = (on_store {E = E} key kind ws s op store).0 in
        (find j s'.spaces ≡ find j s.spaces) × (s'.disk ≡ s.disk)
  unfolding on_store put_back
  on_store-other j key kind ws s op none h = (refl, refl)
  on_store-other j key kind ws s op (some store) h = (find-assign_other j key _ s.spaces h, refl)

  in_session-SameFor :
      (kind session j : Text) (op : JsonDocStore → JsonDocStore × Status StoreError) (p : Platform)
      → text_eq j (key_of session) ≡ false
      → SameFor j p (in_session {E = E} kind session op p)
  unfolding in_session open_session
  in_session-SameFor kind session j op p h =
      let key = key_of session in
      let (s, ws) = open_session key p.sessions in
      let (others, disk) = on_store-other j key kind ws s op (find kind ws) h in
      (others ∙ find-open_session j key p.sessions h, disk, refl)

  save_valid-SameFor :
      (validate : Text → Text → Text → Status E) (st : Status E) (kind file json session j : Text)
      (io : Answers) (p : Platform)
      → text_eq j (key_of session) ≡ false
      → SameFor j p (save_valid validate st kind file json session io p)
  unfolding save_valid
  save_valid-SameFor validate (err why) kind file json session j io p h = (refl, refl, refl)
  save_valid-SameFor validate (ok _) kind file json session j io p h =
      in_session-SameFor kind session j (save file json io) p h

found-SameFor :
    {E F : Type 0} (kind file j : Text) (p : Platform) (x : Platform × Status (LibraryError E))
    → SameFor E j p x
    → found {E = F} kind file j x.0 ≡ found kind file j p
found-SameFor kind file j p (p', st) (spaces, disk, library) =
    rw (spaces, ap (λ f. f j) disk, library) refl

-- `doc` reads what is found.
doc-found :
    {E : Type 0} (kind file session : Text) (p : Platform)
    → (doc {E = E} kind file session p).1 ≡ found kind file (key_of session) p
unfolding doc open_session
doc-found kind file session p = refl

-- Where sessions and documents go by the names of files, and not by paths: what a session saves no
-- other session sees. Whatever comes of the save, the documents that another session reads are those
-- of before.
pub save_doc-isolated :
    {E F : Type 0} (validate : Text → Text → Text → Status E)
    (kind file json session other kind' file' : Text) (io : Answers) (p : Platform)
    → is_file_name (key_of session) ≡ true
    → is_file_name (key_of other) ≡ true
    → is_file_name file ≡ true
    → is_file_name file' ≡ true
    → text_eq (key_of other) (key_of session) ≡ false
    → (doc {E = F} kind' file' other (save_doc validate kind file json session io p).0).1
      ≡ (doc kind' file' other p).1
unfolding save_doc
save_doc-isolated {E = E} validate kind file json session other kind' file' io p _ _ _ _ h =
    let x = save_valid validate (validate kind json file) kind file json session io p in
    doc-found kind' file' other x.0
    ∙ found-SameFor kind' file' (key_of other) p x
        (save_valid-SameFor E validate _ kind file json session (key_of other) io p h)
    ∙ sym (doc-found kind' file' other p)

-- A save that succeeds, of a file that is not cut as it is closed, has put the text into the store.
load-save :
    (file json : Text) (io : Answers) (s : JsonDocStore)
    → io.cut_at_close ≡ none
    → (save file json io s).1 ≡ success
    → load file (save file json io s).0 ≡ ok json
unfolding save load save_opened save_written
load-save file json io s whole e = go io.opens io.cut_short io.renames e
  where
    files : Bool → Option Text → Bool → Map Text × Status StoreError
    files opens cut renames =
        if opens
        then save_opened file json (robonode.Celld.DocStore.staging file s.writes)
            (record {
              opens = opens;
              cut_short = cut;
              cut_at_close = io.cut_at_close;
              renames = renames;
            })
            s.files
        else (s.files, err (robonode.Celld.DocStore.cannot_write file))

    go :
        (opens : Bool) (cut : Option Text) (renames : Bool)
        → (files opens cut renames).1 ≡ success
        → found_document file (find file (files opens cut renames).0) ≡ ok json
    go false cut renames e = absurd (ground arith)
    go true (some some_of_it) renames e = absurd (ground arith)
    go true none false e = absurd (ground arith)
    go true none true e =
        ap (found_document file) (find-assign file (closed_with json io.cut_at_close) _)
        ∙ ap (λ c. ok (closed_with json c)) whole

put_back-found :
    {E F : Type 0} (key kind file json : Text) (ws : Workspace) (s : Sessions)
    (files : Text → Map Text) (ship : Option JsonDocStore) (x : JsonDocStore × Status StoreError)
    → (x.1 ≡ success → load file x.0 ≡ ok json)
    → (put_back {E = E} key kind ws s x).1 ≡ success
    → shadowed {E = F} file
        (find kind (space_of (find key (put_back {E = E} key kind ws s x).0.spaces) files))
        ship
      ≡ ok json
unfolding put_back as_library shadowed space_of at_kind own_or_shipped
put_back-found key kind file json ws s files ship (store, err why) h e = absurd (ground arith)
put_back-found key kind file json ws s files ship (store, ok _) h e =
    let stored : load file store ≡ ok json = h refl in
    rw (find-assign key (assign kind store ws) s.spaces, find-assign kind store ws, stored) refl

on_store-found :
    {E F : Type 0} (key kind file json : Text) (io : Answers) (ws : Workspace) (s : Sessions)
    (files : Text → Map Text) (ship store : Option JsonDocStore)
    → io.cut_at_close ≡ none
    → let x = on_store {E = E} key kind ws s (save file json io) store in
      x.1 ≡ success
      → shadowed {E = F} file (find kind (space_of (find key x.0.spaces) files)) ship ≡ ok json
unfolding on_store
on_store-found key kind file json io ws s files ship none whole e = absurd (ground arith)
on_store-found key kind file json io ws s files ship (some store) whole e =
    put_back-found key kind file json ws s files ship (save file json io store)
      (load-save file json io store whole) e

in_session-found :
    {E F : Type 0} (kind file json session : Text) (io : Answers) (p : Platform)
    → io.cut_at_close ≡ none
    → let x = in_session {E = E} kind session (save file json io) p in
      x.1 ≡ success → found {E = F} kind file (key_of session) x.0 ≡ ok json
unfolding in_session
in_session-found kind file json session io p whole e =
    let (s, ws) = open_session (key_of session) p.sessions in
    on_store-found (key_of session) kind file json io ws s _ (find kind p.library) (find kind ws)
      whole e

save_valid-found :
    {E F : Type 0} (validate : Text → Text → Text → Status E) (st : Status E)
    (kind file json session : Text) (io : Answers) (p : Platform)
    → io.cut_at_close ≡ none
    → let x = save_valid validate st kind file json session io p in
      x.1 ≡ success → (st ≡ success) × (found {E = F} kind file (key_of session) x.0 ≡ ok json)
unfolding save_valid
save_valid-found validate (err why) kind file json session io p whole e = absurd (ground arith)
save_valid-found validate (ok _) kind file json session io p whole e =
    (refl, in_session-found kind file json session io p whole e)

-- Where the session and the document go by the names of files, and the file is not cut as it is
-- closed: a document that a session saves, where the save succeeds, is one that may be stored, and is
-- what the session reads back under its name, also where the library ships one of that name.
pub save_doc-doc :
    {E F : Type 0} (validate : Text → Text → Text → Status E) (kind file json session : Text)
    (io : Answers) (p : Platform)
    → is_file_name (key_of session) ≡ true
    → is_file_name file ≡ true
    → io.cut_at_close ≡ none
    → (save_doc validate kind file json session io p).1 ≡ success
    → (validate kind json file ≡ success)
      × ((doc {E = F} kind file session (save_doc validate kind file json session io p).0).1
          ≡ ok json)
unfolding save_doc
save_doc-doc validate kind file json session io p _ _ whole e =
    let x = save_valid validate (validate kind json file) kind file json session io p in
    let (valid, read) = save_valid-found validate _ kind file json session io p whole e in
    (valid, doc-found kind file session x.0 ∙ read)

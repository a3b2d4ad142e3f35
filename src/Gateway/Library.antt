-- ===== src/Gateway/Library.antt =====
-- The documents of a platform: gateway/include/robonode/platform.hpp, with the sessions and their
-- workspaces of gateway/workspace.hpp. A kind that is not one throws in the code (`map::at`), and is
-- an error here; the callers ask has_kind first. What makes a document storable is an argument. The
-- names of sessions are those of directories, and those of documents of files (is_file_name of
-- Celld/DocStore): the code joins them to a path as they are, and what a path in their place reaches
-- is not in the model. A removed directory is gone.
pub mod Isolated
use robonode.Prelude.{
  Bool, true, false, if◌then◌else◌, Option, none, some, List, [], ◌∷◌, Text, bytes, text_eq,
  is_empty, ◌||◌,
}
use robonode.Core.Map.{Map, find, contains, assign, erase}
use robonode.Core.Result.{Result, ok, err, Status, success}
use robonode.Celld.DocStore.{JsonDocStore, StoreError, Answers, open_store, load, save, remove}

-- The stores of a session, by their kinds.
abbrev pub Workspace : Type 0
Workspace = Map JsonDocStore

-- The workspaces that are open, and what a session that is not open has on disk, by its kinds.
pub record Sessions : Type 0 where
  pub spaces : Map Workspace
  pub disk : Text → Text → Map Text

-- `library_` and `sessions_`
pub record Platform : Type 0 where
  pub library : Map JsonDocStore
  pub sessions : Sessions

pub data LibraryError (E : Type 0) : Type 0 where
  no_kind shared_stays : LibraryError E
  no_session : Text → LibraryError E
  unreadable : Text → Text → LibraryError E
  invalid : E → LibraryError E
  not_stored : StoreError → LibraryError E

abbrev pub kinds : List (Text × Text)
kinds =
    (bytes "apps", bytes ".app.json")
    ∷ (bytes "modules", bytes ".module.json")
    ∷ (bytes "scenes", bytes ".scene.json")
    ∷ (bytes "runs", bytes ".run.json")
    ∷ (bytes "robots", bytes ".cell.json")
    ∷ []

unfoldable pub stores_of : List (Text × Text) → (Text → Map Text) → Map JsonDocStore
unfolding assign open_store
stores_of [] files = []
stores_of ((kind, suffix) ∷ ks) files =
    assign kind (open_store (files kind) suffix 0) (stores_of ks files)

-- `Workspace::Workspace`, of the files on disk.
unfoldable pub new_workspace : (Text → Map Text) → Workspace
unfolding stores_of
new_workspace files = stores_of kinds files

abbrev pub shared : Text
shared = bytes "shared"

unfoldable pub key_of : Text → Text
key_of id = if is_empty id then shared else id

-- The workspace that `open` hands out, of the one that is open and of the files on disk.
unfoldable pub space_of : Option Workspace → (Text → Map Text) → Workspace
unfolding new_workspace
space_of (some ws) files = ws
space_of none files = new_workspace files

-- `Sessions::open`, of a key that names a directory: two paths in its place could lead to one.
unfoldable pub open_session : Text → Sessions → Sessions × Workspace
unfolding space_of find assign
open_session key s =
    let ws = space_of (find key s.spaces) (s.disk key) in
    (record s { spaces = assign key ws s.spaces }, ws)

-- `Sessions::remove`, with whether the file system removed anything.
unfoldable pub remove_session :
    {E : Type 0} → Text → Bool → Sessions → Sessions × Status (LibraryError E)
unfolding erase text_eq
remove_session id removed s =
    let s' : Sessions = record {
      spaces = erase id s.spaces;
      disk = λ key kind. if text_eq key id then [] else s.disk key kind;
    } in
    if is_empty id || text_eq id shared
    then (s, err shared_stays)
    else (s', if removed then success else err (no_session id))

-- A store that is `at` its kind.
unfoldable pub at_kind {ℓ} :
    {E : Type 0} {B : Type ℓ}
    → Option JsonDocStore
    → (JsonDocStore → Result (LibraryError E) B)
    → Result (LibraryError E) B
at_kind none use_it = err no_kind
at_kind (some s) use_it = use_it s

unfoldable pub from_store : {E : Type 0} → Result StoreError Text → Result (LibraryError E) Text
from_store (ok body) = ok body
from_store (err why) = err (not_stored why)

-- `doc` over the store of the session: its own document, or the shipped one.
unfoldable pub own_or_shipped :
    {E : Type 0}
    → Result StoreError Text
    → Result (LibraryError E) Text
    → Result (LibraryError E) Text
own_or_shipped (ok body) ship = ok body
own_or_shipped (err why) ship = ship

unfoldable pub shadowed :
    {E : Type 0} → Text → Option JsonDocStore → Option JsonDocStore → Result (LibraryError E) Text
unfolding at_kind own_or_shipped load from_store
shadowed file mine shipped =
    at_kind mine
      (λ m. own_or_shipped (load file m) (at_kind shipped (λ s. from_store (load file s))))

unfoldable pub doc :
    {E : Type 0} → Text → Text → Text → Platform → Platform × Result (LibraryError E) Text
unfolding open_session shadowed key_of
doc kind file session p =
    let (s, ws) = open_session (key_of session) p.sessions in
    (record p { sessions = s }, shadowed file (find kind ws) (find kind p.library))

unfoldable pub as_library : {E : Type 0} → Status StoreError → Status (LibraryError E)
as_library (ok _) = success
as_library (err why) = err (not_stored why)

-- The store of a kind and a session, with an operation on it.
unfoldable pub put_back :
    {E : Type 0}
    → Text
    → Text
    → Workspace
    → Sessions
    → JsonDocStore × Status StoreError
    → Sessions × Status (LibraryError E)
unfolding assign as_library
put_back key kind ws s (store, st) =
    (record s { spaces = assign key (assign kind store ws) s.spaces }, as_library st)

unfoldable pub on_store :
    {E : Type 0}
    → Text
    → Text
    → Workspace
    → Sessions
    → (JsonDocStore → JsonDocStore × Status StoreError)
    → Option JsonDocStore
    → Sessions × Status (LibraryError E)
unfolding put_back
on_store key kind ws s op none = (s, err no_kind)
on_store key kind ws s op (some store) = put_back key kind ws s (op store)

unfoldable pub in_session :
    {E : Type 0}
    → Text
    → Text
    → (JsonDocStore → JsonDocStore × Status StoreError)
    → Platform
    → Platform × Status (LibraryError E)
unfolding open_session on_store key_of find
in_session kind session op p =
    let key = key_of session in
    let (s, ws) = open_session key p.sessions in
    let (s', st) = on_store key kind ws s op (find kind ws) in (record p { sessions = s' }, st)

unfoldable pub delete_doc :
    {E : Type 0} → Text → Text → Text → Platform → Platform × Status (LibraryError E)
unfolding in_session remove
delete_doc kind file session p = in_session kind session (remove file) p

module _ {E : Type 0} (validate : Text → Text → Text → Status E) where
  unfoldable pub save_valid :
      Status E → Text → Text → Text → Text → Answers → Platform → Platform × Status (LibraryError E)
  unfolding in_session save
  save_valid (err why) kind file json session io p = (p, err (invalid why))
  save_valid (ok _) kind file json session io p = in_session kind session (save file json io) p

  unfoldable pub save_doc :
      Text → Text → Text → Text → Answers → Platform → Platform × Status (LibraryError E)
  unfolding save_valid
  save_doc kind file json session io p =
      save_valid (validate kind json file) kind file json session io p

  -- `fork_doc`: `renamed` is the JSON text of a body with the name, if it is JSON.
  unfoldable pub fork_read :
      (Text → Text → Option Text)
      → Text
      → Text
      → Text
      → Text
      → Text
      → Answers
      → Platform × Result (LibraryError E) Text
      → Platform × Status (LibraryError E)
  unfolding save_doc
  fork_read renamed kind from to name session io (p, err why) = (p, err why)
  fork_read renamed kind from to name session io (p, ok body) = elim (renamed name body) [
    | none ↦ (p, err (unreadable kind from))
    | some json ↦ save_doc kind to json session io p
  ]

  unfoldable pub fork_doc :
      (Text → Text → Option Text)
      → Text
      → Text
      → Text
      → Text
      → Text
      → Answers
      → Platform
      → Platform × Status (LibraryError E)
  unfolding fork_read doc
  fork_doc renamed kind from to name session io p =
      fork_read renamed kind from to name session io (doc kind from session p)

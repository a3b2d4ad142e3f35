-- ===== src/Gateway/Directory.antt =====
-- gateway/cell_manager.hpp: cells that are addressed by a name.
pub mod Names
mod Tests
use robonode.Prelude.{
  Bool, true, false, if◌then◌else◌, Option, List, [], ◌∷◌, Text, bytes, text_eq, is_empty,
}
use robonode.Core.Map.{Map, find, contains, assign, erase}
use robonode.Core.Result.{err, Status, success}

pub data DirectoryError : Type 0 where
  cell_id_required main_cell_stays : DirectoryError
  already_exists no_cell : Text → DirectoryError

-- The operations of `CellManager` on `cells_`; each runs under its mutex. A gateway is built by its
-- caller here, before the lock is taken as in the code.
module _ {ℓ} {G : Type ℓ} where
  unfoldable pub add_cell : Text → G → Map G → Map G × Status DirectoryError
  unfolding contains assign
  add_cell id gateway cells =
      if is_empty id
      then (cells, err cell_id_required)
      else if contains id cells
      then (cells, err (already_exists id))
      else (assign id gateway cells, success)

  unfoldable pub remove_cell : Text → Map G → Map G × Status DirectoryError
  unfolding contains erase text_eq
  remove_cell id cells =
      if text_eq id (bytes "main")
      then (cells, err main_cell_stays)
      else if contains id cells
      then (erase id cells, success)
      else (cells, err (no_cell id))

  unfoldable pub has_cell : Text → Map G → Bool
  unfolding contains
  has_cell id cells = contains id cells

  unfoldable pub cell_of : Text → Map G → Option G
  unfolding find
  cell_of id cells = find id cells

  -- The constructor, with the gateway of the main cell.
  unfoldable pub new_manager : G → Map G
  unfolding add_cell
  new_manager gateway = (add_cell (bytes "main") gateway []).0

-- A request to the manager.
pub data Request {ℓ} (G : Type ℓ) : Type ℓ where
  adds : Text → G → Request G
  removes : Text → Request G

module _ {ℓ} {G : Type ℓ} where
  unfoldable pub request : Request G → Map G → Map G
  unfolding add_cell remove_cell
  request (adds id gateway) cells = (add_cell id gateway cells).0
  request (removes id) cells = (remove_cell id cells).0

  unfoldable pub request_all : List (Request G) → Map G → Map G
  unfolding request
  request_all [] cells = cells
  request_all (q ∷ qs) cells = request_all qs (request q cells)

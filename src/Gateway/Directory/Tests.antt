-- ===== src/Gateway/Directory/Tests.antt =====
-- Concrete directories, and the theorems at concrete inputs.
use robonode.Prelude.{ℕ, ◌+◌, ◌≡◌, refl, none, some, List, [], ◌∷◌, Text, bytes}
use robonode.Core.Result.{err}
use robonode.Gateway.Directory.{main_cell_stays, remove_cell, new_manager}
use robonode.Motion.ModuleRegistry.{Factory, names, add_all}

abbrev half : Factory ℕ ℕ
half n = none

abbrev double : Factory ℕ ℕ
double n = some (n + n)

abbrev versions : List (Text × Factory ℕ ℕ)
versions = (bytes "b", double) ∷ (bytes "a", half) ∷ (bytes "b", half) ∷ []

remove-main : (remove_cell {G = ℕ} (bytes "main") (new_manager 1)).1 ≡ err main_cell_stays
unfolding remove_cell
remove-main = refl

names_sorted : names (add_all versions []) ≡ bytes "a" ∷ bytes "b" ∷ []
unfolding names add_all
names_sorted = refl

-- ===== src/Program/Station.antt =====
-- celld/station.hpp, and what a program reads of a step and of a station: celld/app_descriptor.hpp,
-- celld/cell_descriptor.hpp.
use robonode.Prelude.{
  ℕ, zero, suc, ◌+◌, ◌/◌, ◌%◌, ltb, if◌then◌else◌, Option, none, some, Text, bytes,
}
use robonode.Prelude.Int.{ℤ, pos, negsuc}
use robonode.Core.Double.{Double}
use robonode.Core.Geometry.{Vec3}
use robonode.Core.Map.{Map, find}

pub record AppStep : Type 0 where
  pub verb : Text
  pub args : Map Text

pub record StationSpec : Type 0 where
  pub id : Text
  pub type : Text
  pub config : Map Text

-- `std::strtod`, and the cast to `int`.
pub record Numbers {ℓ} (W : Type ℓ) : Type ℓ where
  pub strtod : Text → W
  pub to_int : W → ℤ

-- `cols`, `index % cols` and `index / cols`, which round to zero.
abbrev pub cols_of : ℤ → ℕ
cols_of (pos n) = if ltb n 1 then 1 else n
cols_of (negsuc n) = 1

abbrev pub negated : ℕ → ℤ
negated zero = pos 0
negated (suc n) = negsuc n

abbrev pub rem_int : ℤ → ℕ → ℤ
rem_int (pos n) c = pos (n % c)
rem_int (negsuc n) c = negated ((n + 1) % c)

abbrev pub quot_int : ℤ → ℕ → ℤ
quot_int (pos n) c = pos (n / c)
quot_int (negsuc n) c = negated ((n + 1) / c)

-- The grid cell of a slot: its column and its row.
unfoldable pub grid_cell : ℤ → ℕ → ℤ × ℤ
grid_cell index cols = (rem_int index cols, quot_int index cols)

module _ {ℓ} {W : Type ℓ} ⦃d : Double W⦄ where
  abbrev pub of_int : ℤ → W
  of_int (pos n) = d.of_nat n
  of_int (negsuc n) = d.neg (d.of_nat (n + 1))

  -- `num` of the runner and of a station: the value of a key, or what it falls back on.
  unfoldable pub num_or : Numbers W → Option Text → W → W
  num_or nums none fallback = fallback
  num_or nums (some value) fallback = nums.strtod value

  unfoldable pub num : Numbers W → Map Text → Text → W → W
  unfolding find num_or
  num nums args key fallback = num_or nums (find key args) fallback

  unfoldable pub pallet_slot : Numbers W → StationSpec → ℤ → Vec3 W
  unfolding num grid_cell
  pallet_slot nums s index =
      let cols = cols_of (nums.to_int (num nums s.config (bytes "cols") (d.of_nat 2))) in
      let (col, row) = grid_cell index cols in
      record {
        x =
            d.add (num nums s.config (bytes "ox") (d.decimal 45 2))
              (d.mul (of_int col) (num nums s.config (bytes "dx") (d.decimal 15 2)));
        y = num nums s.config (bytes "oy") (d.neg (d.decimal 3 1));
        z =
            d.add (num nums s.config (bytes "oz") (d.decimal 45 2))
              (d.mul (of_int row) (num nums s.config (bytes "dz") (d.decimal 15 2)));
      }

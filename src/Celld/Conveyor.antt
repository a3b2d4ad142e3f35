-- ===== src/Celld/Conveyor.antt =====
-- celld/conveyor.hpp, on the calls of celld/scene.hpp that it makes: the live scene `S` by the names
-- that its model declares; and gateway/station_ops.hpp, which finds the conveyor of a request.
pub mod Recycled
use robonode.Prelude.{
  Bool, true, false, not, ◌&&◌, ◌||◌, if◌then◌else◌, Option, none, some, List, [], ◌∷◌, Text, bytes,
  text_eq, is_empty,
}
use robonode.Core.Double.{Double, nought}
use robonode.Core.Map.{find}
use robonode.Core.Result.{Result, ok, err, Status, success}
use robonode.Core.Geometry.{Vec3}
use robonode.Program.Station.{StationSpec, Numbers}

pub data StationError : Type 0 where
  no_start_site no_conveyor_station : Text → StationError
  scene_error : Text → StationError

pub data Belt : Type 0 where
  stopped running : Belt

pub record Scene {ℓ κ} (W : Type ℓ) (S : Type κ) : Type (ℓ ⊔ κ) where
  pub site : Text → S → Option (Vec3 W)
  pub drive : Text → W → S → S × Status StationError
  pub place_joint : Text → W → S → S × Status StationError
  pub place_body : Text → Vec3 W → S → S × Status StationError

-- `text`
unfoldable pub config_text : Text → StationSpec → Text
unfolding find
config_text key spec = elim (find key spec.config) [ none ↦ [] | some t ↦ t ]

-- What follows a call of the scene that can fail.
unfoldable pub after {κ} :
    {S : Type κ} → S × Status StationError → (S → S × Status StationError) → S × Status StationError
after (s, ok _) next = next s
after (s, err why) next = (s, err why)

module _ {ℓ} {W : Type ℓ} ⦃d : Double W⦄ where
  -- `num`
  unfoldable pub config_num : Numbers W → Text → W → StationSpec → W
  unfolding find
  config_num numbers key fallback spec = elim (find key spec.config) [
    | none ↦ fallback
    | some t ↦ Numbers.strtod numbers t
  ]

  -- `past_the_end`, of the head, the end and the part
  unfoldable pub past_the_end : Vec3 W → Vec3 W → Vec3 W → Bool
  past_the_end head end part = if d.lt end.x head.x then d.le part.x end.x else d.le end.x part.x

  -- Where a part is delivered.
  unfoldable pub delivery : Numbers W → StationSpec → Vec3 W → Vec3 W
  unfolding config_num
  delivery numbers spec head = record {
    x = d.add head.x nought;
    y = d.add head.y nought;
    z = d.add head.z (config_num numbers (bytes "drop_m") (d.decimal 3 2) spec);
  }

module _ {ℓ κ} {W : Type ℓ} {S : Type κ} ⦃d : Double W⦄ (numbers : Numbers W)
    (scene : Scene W S) where
  open scene use {site, drive, place_joint, place_body}

  unfoldable pub start : StationSpec → S → S × Status StationError
  unfolding config_text config_num
  start spec s =
      drive (config_text (bytes "actuator") spec)
        (config_num numbers (bytes "speed_m_s") nought spec) s

  unfoldable pub stop : StationSpec → S → S × Status StationError
  unfolding config_text
  stop spec s = drive (config_text (bytes "actuator") spec) nought s

  -- `recycle`, from the reading of the head.
  unfoldable pub deliver_at : StationSpec → Option (Vec3 W) → S → S × Status StationError
  unfolding config_text delivery
  deliver_at spec none s = (s, err (no_start_site spec.id))
  deliver_at spec (some head) s =
      place_body (config_text (bytes "workpiece") spec) (delivery numbers spec head) s

  unfoldable pub recycle : StationSpec → S → S × Status StationError
  unfolding config_text config_num after deliver_at
  recycle spec s =
      after
        (place_joint (config_text (bytes "joint") spec)
          (config_num numbers (bytes "rewind_m") nought spec) s)
        (λ s'. deliver_at spec (site (config_text (bytes "start_site") spec) s') s')

  -- `recirculate`, of the part, the head and the end, where there are all.
  unfoldable pub recirculate_from :
      StationSpec
      → Option (Vec3 W)
      → Option (Vec3 W)
      → Option (Vec3 W)
      → S
      → S × Status StationError
  unfolding past_the_end recycle
  recirculate_from spec (some part) (some head) (some end) s =
      if past_the_end head end part then recycle spec s else (s, success)
  recirculate_from spec _ _ _ s = (s, success)

  unfoldable pub recirculate : StationSpec → S → S × Status StationError
  unfolding recirculate_from config_text
  recirculate spec s =
      recirculate_from spec (site (config_text (bytes "workpiece") spec) s)
        (site (config_text (bytes "start_site") spec) s)
        (site (config_text (bytes "end_site") spec) s) s

  -- `with_conveyor`: the first conveyor of that id, or of any where none is given.
  unfoldable pub with_conveyor :
      Text
      → (StationSpec → S → S × Status StationError)
      → List StationSpec
      → S
      → S × Status StationError
  unfolding text_eq
  with_conveyor id fn [] s = (s, err (no_conveyor_station id))
  with_conveyor id fn (spec ∷ specs) s =
      let others = with_conveyor id fn specs s in
      if (text_eq spec.id id || is_empty id) && text_eq spec.type (bytes "conveyor")
      then fn spec s
      else others

  unfoldable pub run_belt : Belt → StationSpec → S → S × Status StationError
  unfolding stop after recycle start
  run_belt stopped spec s = stop spec s
  run_belt running spec s = after (recycle spec s) (start spec)

  unfoldable pub run_station : Text → Belt → List StationSpec → S → S × Status StationError
  unfolding with_conveyor run_belt
  run_station id want specs s = with_conveyor id (run_belt want) specs s

  unfoldable pub deliver_station : Text → List StationSpec → S → S × Status StationError
  unfolding with_conveyor recycle
  deliver_station id specs s = with_conveyor id recycle specs s

-- ===== src/Gateway/Verbs.antt =====
-- The verbs that gateway/cell_gateway.hpp itself registers, and `build_define`: the command that each
-- makes of its arguments, with the key under which a waiting one is replaced. What the worker will do
-- is a value (Work). The verbs of the supervisor are in Gateway/Router; those of the tool and of the
-- program's steps are left out. The fields that are given are taken to be of their types.
pub mod Keys
pub mod Overtaken
use robonode.Prelude.{
  Bool, true, false, not, if◌then◌else◌, ◌||◌, Option, none, some, List, [], ◌∷◌, ◌++◌, Text, bytes,
  is_empty, text_eq,
}
use robonode.Core.Map.{Map, find, contains}
use robonode.Core.Result.{Result, ok, err, ◌>>=◌, Status, success}
use robonode.Core.Double.{Double, nought, one}
use robonode.Core.Geometry.{Maths, Vec3, Quat, Pose, normalized}
use robonode.Program.Station.{AppStep}
use robonode.Motion.ModuleRegistry.{Factory}
use robonode.Gateway.Capability.{Select, now, later, Capability, select, install}

-- What the code asks of the arguments: `a.value` of a text, a number and a truth value, each with a
-- default, and the program, which is empty where none is given.
pub record Fields {ℓ} (J : Type 0) (D : Type ℓ) : Type ℓ where
  pub text_at : Text → Text → J → Text
  pub number_at : Text → D → J → D
  pub flag_at : Text → Bool → J → Bool
  pub has_at : Text → J → Bool
  pub program_at : J → List AppStep

pub data Work {ℓ κ} (D : Type ℓ) (P : Type κ) : Type (ℓ ⊔ κ) where
  runs_motion builds : Text → Work D P
  swaps_node swaps_scene selects : Text → Text → Work D P
  moves_pose : Pose D → Work D P
  moves_l : Vec3 D → Work D P
  jogs : Text → D → Work D P
  runs_app : List AppStep → Work D P
  installs : Text → Text → P → Select → Work D P

-- The key and `run` of a command, and the version in its answer.
pub record Built {ℓ κ} (D : Type ℓ) (P : Type κ) : Type (ℓ ⊔ κ) where
  pub key : Text
  pub version : Text
  pub run : Work D P

pub data VerbError (E : Type 0) : Type 0 where
  no_motions no_node_driver no_kinematics no_axis no_target empty_program : VerbError E
  unknown_capability no_version no_scene no_source : VerbError E
  unknown_family : Text → VerbError E
  not_compiled : E → VerbError E

-- What the verbs read of the cell: the motions and the families that it describes, whether it has
-- kinematics, and how a capability compiles a program, by its id.
pub record Offers {ℓ} (P : Type ℓ) (E : Type 0) : Type ℓ where
  pub motions : List Text
  pub families : List Text
  pub kinematics : Bool
  pub capabilities : Map (Text → Result E P)

unfoldable pub default_motion : List Text → Text
default_motion [] = []
default_motion (m ∷ ms) = m

-- `!program.empty()`
unfoldable pub some_step : List AppStep → Bool
some_step [] = false
some_step (s ∷ ss) = true

unfoldable pub among : Text → List Text → Bool
unfolding text_eq
among t [] = false
among t (u ∷ us) = text_eq u t || among t us

module _ {ℓ κ} {D : Type ℓ} {P : Type κ} where
  unfoldable pub plain : Work D P → Built D P
  plain w = record { key = []; version = []; run = w }

  unfoldable pub keyed : Text → Work D P → Built D P
  keyed key w = record { key = key; version = []; run = w }

module _ {ℓ κ} {D : Type ℓ} {P : Type κ} {E : Type 0} where
  unfoldable pub needs : Bool → VerbError E → Built D P → Result (VerbError E) (Built D P)
  needs true why b = ok b
  needs false why b = err why

  -- `build_define` after the capability.
  unfoldable pub define_in :
      Option (Text → Result E P) → Text → Text → Text → Select → Result (VerbError E) (Built D P)
  define_in none id name source sel = err unknown_capability
  define_in (some compile) id name source sel =
      let compiled = compile source in
      if is_empty name || is_empty source then err no_source else elim compiled [
        | err why ↦ err (not_compiled why)
        | ok p ↦ ok (
            let version = bytes "user." ++ name in
            record { key = []; version = version; run = installs id version p sel })
      ]

  unfoldable pub build_define :
      Offers P E → Text → Text → Text → Select → Result (VerbError E) (Built D P)
  unfolding define_in find
  build_define o id name source sel = define_in (find id o.capabilities) id name source sel

  -- `set_version`, of its two texts.
  unfoldable pub build_set_version : Offers P E → Text → Text → Result (VerbError E) (Built D P)
  unfolding contains needs keyed
  build_set_version o id version =
      if contains id o.capabilities
      then needs (not (is_empty version)) no_version
          (keyed (bytes "set_version:" ++ id) (selects id version))
      else err unknown_capability

  unfoldable pub build_driver : Offers P E → Text → Result (VerbError E) (Built D P)
  unfolding among needs keyed
  build_driver o family =
      needs (among family o.families) (unknown_family family)
        (keyed (bytes "driver") (builds family))

  unfoldable pub build_set_driver : Text → Text → Result (VerbError E) (Built D P)
  unfolding needs keyed
  build_set_driver node driver =
      needs (not (is_empty node || is_empty driver)) no_node_driver
        (keyed (bytes "set_driver:" ++ node) (swaps_node node driver))

  unfoldable pub build_run : Text → Result (VerbError E) (Built D P)
  unfolding needs plain
  build_run id = needs (not (is_empty id)) no_motions (plain (runs_motion id))

  unfoldable pub build_load_scene : Text → Text → Result (VerbError E) (Built D P)
  unfolding needs keyed
  build_load_scene scene label =
      needs (not (is_empty scene)) no_scene (keyed (bytes "load_scene") (swaps_scene scene label))

unfoldable pub select_of : Bool → Select
select_of true = now
select_of false = later

module _ {ℓ} {D : Type ℓ} ⦃d : Double D⦄ {J : Type 0} (f : Fields J D) where
  unfoldable pub point_of : J → Vec3 D
  point_of a = record {
    x = f.number_at (bytes "x") nought a;
    y = f.number_at (bytes "y") nought a;
    z = f.number_at (bytes "z") nought a;
  }

  unfoldable pub pose_of : ⦃maths : Maths D⦄ → J → Pose D
  unfolding point_of normalized
  pose_of a = record {
    position = point_of a;
    orientation = normalized (record {
      w = f.number_at (bytes "qw") one a;
      x = f.number_at (bytes "qx") nought a;
      y = f.number_at (bytes "qy") nought a;
      z = f.number_at (bytes "qz") nought a;
    });
  }

  module _ {κ} {P : Type κ} {E : Type 0} where
    unfoldable pub build_jog : J → Result (VerbError E) (Built D P)
    unfolding needs plain
    build_jog a =
        let axis = f.text_at (bytes "axis") [] a in
        let built =
          needs (f.has_at (bytes "target") a) no_target
            (plain (jogs axis (f.number_at (bytes "target") nought a))) in
        if is_empty axis then err no_axis else built

    -- The verbs of `register_motion_verbs`, `register_capability_verbs` and `register_scene_verbs`.
    unfoldable pub register_verbs :
        ⦃maths : Maths D⦄ → Offers P E → Map (J → Result (VerbError E) (Built D P))
    unfolding build_run default_motion some_step build_driver build_set_driver needs plain pose_of
        point_of build_jog build_set_version build_define select_of build_load_scene
    register_verbs o =
        (bytes "run", λ a. build_run (f.text_at (bytes "motion") (default_motion o.motions) a))
        ∷ (bytes "driver", λ a. build_driver o (f.text_at (bytes "family") [] a))
        ∷ (
          bytes "set_driver",
          λ a. build_set_driver (f.text_at (bytes "node") [] a) (f.text_at (bytes "driver") [] a),
        )
        ∷ (
          bytes "move_pose",
          λ a. needs o.kinematics no_kinematics (plain (moves_pose (pose_of a))),
        )
        ∷ (bytes "move_l", λ a. needs o.kinematics no_kinematics (plain (moves_l (point_of a))))
        ∷ (bytes "jog", build_jog)
        ∷ (
          bytes "run_app",
          λ a. needs (some_step (f.program_at a)) empty_program (plain (runs_app (f.program_at a))),
        )
        ∷ (
          bytes "set_version",
          λ a.
              build_set_version o (f.text_at (bytes "capability") [] a)
                (f.text_at (bytes "version") [] a),
        )
        ∷ (
          bytes "define_module",
          λ a.
              build_define o (f.text_at (bytes "capability") [] a) (f.text_at (bytes "name") [] a)
                (f.text_at (bytes "source") [] a) (select_of (f.flag_at (bytes "select") true a)),
        )
        ∷ (
          bytes "load_scene",
          λ a.
              build_load_scene (f.text_at (bytes "scene") [] a)
                (f.text_at (bytes "label") (bytes "scene") a),
        )
        ∷ []

module _ {ℓ κ μ ν} {D : Type ℓ} {P : Type κ} {T : Type μ} {C : Type ν} (program : P → Factory T C)
    (ctx : C) where
  -- What the worker does to the capability of this id, where the gateway runs a command.
  unfoldable pub perform : Text → Work D P → Capability T C → Capability T C
  unfolding select install text_eq
  perform id (selects id' version) c = if text_eq id' id then (select ctx version c).0 else c
  perform id (installs id' version p sel) c =
      if text_eq id' id then install ctx version (program p) sel c else c
  perform id w c = c

  unfoldable pub perform_all : Text → List (Work D P) → Capability T C → Capability T C
  unfolding perform
  perform_all id [] c = c
  perform_all id (w ∷ ws) c = perform_all id ws (perform id w c)

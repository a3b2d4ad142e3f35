-- ===== src/Gateway/SensingTests.antt =====
-- The theorems on the sensors of a cell, with cameras that are numbers and a detector that is its
-- camera.
use robonode.Prelude.{ℕ, ◌≡◌, refl, none, some, List, [], ◌∷◌, bytes, text_eq}
use robonode.Core.Map.{find, contains}
use robonode.Core.Result.{success}
use robonode.Motion.ModuleRegistry.{Factory, has}
use robonode.Program.Runner.{Detection}
use robonode.Gateway.Capability.{later, made_into}
use robonode.Gateway.Sensing.{
  VisionContext, CameraCapability, VisionCapability, Sensing, the_camera, the_vision, Use, selects,
  defines, views, looks, feeds, make_camera, made_of, select_version, run_set_version, make_uses,
}
use robonode.Gateway.Sensing.Current.{IsCurrent, make_uses-IsCurrent, run_set_version-stale}

abbrev camera : CameraCapability ℕ
camera = record {
  registry = (bytes "overhead", λ view. some 1) ∷ (bytes "slow", λ view. some 2) ∷ [];
  version = bytes "overhead";
  view = record { watch = bytes "part"; clutter = [] };
}

abbrev of_camera : Factory ℕ (VisionContext ℕ)
of_camera = λ ctx. ctx.camera

abbrev vision : VisionCapability ℕ ℕ ℕ
vision = record {
  registry = (bytes "cv", of_camera) ∷ [];
  version = bytes "cv";
  versions = [];
  detector = some 1;
  target = bytes "part";
  clutter = [];
  last_seen = none;
}

abbrev sensing : Sensing ℕ ℕ ℕ
sensing = record { camera = camera; vision = vision; feed = some 1 }

abbrev sees : ℕ → List (Detection ℕ)
sees = λ det. record { position = record { x = det; y = 0; z = 0 }; captured_s = 5 } ∷ []

abbrev uses : List (Use ℕ ℕ ℕ)
uses =
    selects the_camera (bytes "slow") sees
    ∷ defines (bytes "user.mine") of_camera later sees
    ∷ looks sees
    ∷ views (bytes "decoy")
    ∷ feeds
    ∷ selects the_vision (bytes "none") sees
    ∷ []

make_uses-IsCurrent_example : IsCurrent (make_uses uses sensing)
unfolding made_of make_camera made_into find text_eq
make_uses-IsCurrent_example = make_uses-IsCurrent uses sensing refl

-- After the command the detector reads camera 1 still, though camera 2 is selected.
run_set_version-stale_example :
    let (a, told) = run_set_version sees the_camera (bytes "slow") sensing in
    let (b, stepped) = select_version sees the_camera (bytes "slow") sensing in
    (told ≡ success)
    × (stepped ≡ success)
    × (a.camera.version ≡ bytes "slow")
    × (b.camera ≡ a.camera)
    × (a.vision.detector ≡ some 1)
    × (b.vision.detector ≡ some 2)
    × (a.feed ≡ some 1)
    × (b.feed ≡ none)
unfolding made_of make_camera made_into find text_eq has contains run_set_version select_version
run_set_version-stale_example = run_set_version-stale sees (bytes "slow") sensing refl refl

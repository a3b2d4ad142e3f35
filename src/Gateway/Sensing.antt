-- ===== src/Gateway/Sensing.antt =====
-- gateway/camera_capability.hpp and vision_capability.hpp beside it: the camera of a cell and the
-- detector that reads it; with `select` of gateway/cell_gateway.hpp, the command of its verb
-- set_version, what a scene that is swapped does to both, and the camera feed. What a detector finds
-- is an argument, and so is what a version makes; the JSON views are left out.
pub mod Current
use robonode.Prelude.{
  Bool, true, false, if◌then◌else◌, Option, none, some, List, [], ◌∷◌, Text, bytes,
}
use robonode.Core.Map.{Map, find, assign}
use robonode.Core.Result.{Result, ok, err, Status, success}
use robonode.Core.Geometry.{Vec3}
use robonode.Motion.ModuleRegistry.{Factory, add, has}
use robonode.Program.Runner.{Detection}
use robonode.Gateway.Capability.{
  VersionInfo, Select, now, later, version_after, CapabilityError, unknown, made_into,
}

-- `config`: what is in view, and what of that is clutter.
pub record CameraContext : Type 0 where
  pub watch : Text
  pub clutter : Text

-- `config`, and what `camera()` gives: a factory asks it at most once.
pub record VisionContext {ℓ} (Cam : Type ℓ) : Type ℓ where
  pub target : Text
  pub clutter : Text
  pub camera : Option Cam

pub record CameraCapability {ℓ} (Cam : Type ℓ) : Type ℓ where
  pub registry : Map (Factory Cam CameraContext)
  pub version : Text
  pub view : CameraContext

pub record VisionCapability {ℓ κ μ} (Cam : Type ℓ) (Det : Type κ) (W : Type μ)
    : Type (ℓ ⊔ κ ⊔ μ) where
  pub registry : Map (Factory Det (VisionContext Cam))
  pub version : Text
  pub versions : Map VersionInfo
  pub detector : Option Det
  pub target : Text
  pub clutter : Text
  pub last_seen : Option (Vec3 W)

-- `camera_`, `vision_` and `feed_` of the gateway.
pub record Sensing {ℓ κ μ} (Cam : Type ℓ) (Det : Type κ) (W : Type μ) : Type (ℓ ⊔ κ ⊔ μ) where
  pub camera : CameraCapability Cam
  pub vision : VisionCapability Cam Det W
  pub feed : Option Cam

pub data Sensor : Type 0 where
  the_camera the_vision : Sensor

module _ {ℓ} {Cam : Type ℓ} where
  -- `CameraCapability::make`: null where the version is not available.
  unfoldable pub make_camera : CameraCapability Cam → Option Cam
  unfolding made_into find
  make_camera c = made_into c.view none (find c.version c.registry)

  unfoldable pub select_camera :
      Text → CameraCapability Cam → CameraCapability Cam × Status CapabilityError
  unfolding has
  select_camera version c =
      if has version c.registry
      then (record c { version = version }, success)
      else (c, err (unknown version))

  unfoldable pub set_view : Text → Text → CameraCapability Cam → CameraCapability Cam
  set_view watch clutter c = record c { view = record { watch = watch; clutter = clutter } }

-- `ds.front()`
unfoldable pub front {ℓ} : {A : Type ℓ} → List A → Option A
front [] = none
front (d ∷ ds) = some d

unfoldable pub position_of {ℓ} : {W : Type ℓ} → Option (Detection W) → Option (Vec3 W)
position_of none = none
position_of (some d) = some d.position

unfoldable pub detections {κ μ} :
    {Det : Type κ} {W : Type μ} → (Det → List (Detection W)) → Option Det → List (Detection W)
detections detect none = []
detections detect (some det) = detect det

-- `if (!feed_) feed_ = camera_.make();`
unfoldable pub fed {ℓ} : {Cam : Type ℓ} → Option Cam → Option Cam → Option Cam
fed none fresh = fresh
fed (some cam) fresh = some cam

module _ {ℓ κ μ} {Cam : Type ℓ} {Det : Type κ} {W : Type μ} where
  -- The detector that the version in force makes, of a camera.
  unfoldable pub made_of : Option Cam → VisionCapability Cam Det W → Option Det
  unfolding made_into find
  made_of cam v =
      let ctx : VisionContext Cam = record {
        target = v.target;
        clutter = v.clutter;
        camera = cam;
      } in
      made_into ctx none (find v.version v.registry)

  unfoldable pub rebuild_locked :
      Option Cam → VisionCapability Cam Det W → VisionCapability Cam Det W
  unfolding made_of
  rebuild_locked cam v = record v { detector = made_of cam v }

  module _ (detect : Det → List (Detection W)) where
    -- `look`, with `publish_detections`.
    unfoldable pub look :
        VisionCapability Cam Det W → VisionCapability Cam Det W × Option (Detection W)
    unfolding detections front position_of
    look v =
        let seen = front (detections detect v.detector) in
        (record v { last_seen = position_of seen }, seen)

    unfoldable pub observe_part :
        VisionCapability Cam Det W → VisionCapability Cam Det W × Option (Vec3 W)
    unfolding look position_of
    observe_part v = let (v', seen) = look v in (v', position_of seen)

    unfoldable pub select_vision :
        Option Cam
        → Text
        → VisionCapability Cam Det W
        → VisionCapability Cam Det W × Status CapabilityError
    unfolding has rebuild_locked observe_part
    select_vision cam version v =
        if has version v.registry
        then ((observe_part (rebuild_locked cam (record v { version = version }))).0, success)
        else (v, err (unknown version))

    -- `install`, with the factory of the program.
    unfoldable pub install_vision :
        Option Cam
        → Text
        → Factory Det (VisionContext Cam)
        → Select
        → VisionCapability Cam Det W
        → VisionCapability Cam Det W
    unfolding add assign version_after rebuild_locked observe_part
    install_vision cam id factory sel v =
        let info : VersionInfo = record { id = id; origin = bytes "user"; source_hash = [] } in
        (observe_part (
          rebuild_locked cam (record v {
            registry = add id factory v.registry;
            versions = assign id info v.versions;
            version = version_after sel id v.version;
          }))).0

    -- `cap->select`, of the capability that is named.
    unfoldable pub select_sensor :
        Sensor → Text → Sensing Cam Det W → Sensing Cam Det W × Status CapabilityError
    unfolding select_camera select_vision make_camera
    select_sensor the_camera version s =
        let (c, st) = select_camera version s.camera in (record s { camera = c }, st)
    select_sensor the_vision version s =
        let (v, st) = select_vision (make_camera s.camera) version s.vision in
        (record s { vision = v }, st)

    -- `select` of the gateway after the capability's.
    unfoldable pub after_select :
        Sensor
        → Sensing Cam Det W × Status CapabilityError
        → Sensing Cam Det W × Status CapabilityError
    unfolding rebuild_locked make_camera
    after_select the_camera (s, ok _) =
        (record s { vision = rebuild_locked (make_camera s.camera) s.vision; feed = none }, success)
    after_select the_camera (s, err why) = (s, err why)
    after_select the_vision (s, st) = (s, st)

    -- `CellGateway::select`, the step of a program.
    unfoldable pub select_version :
        Sensor → Text → Sensing Cam Det W → Sensing Cam Det W × Status CapabilityError
    unfolding select_sensor after_select
    select_version sensor version s = after_select sensor (select_sensor sensor version s)

    -- What the command of the verb set_version runs.
    unfoldable pub run_set_version :
        Sensor → Text → Sensing Cam Det W → Sensing Cam Det W × Status CapabilityError
    unfolding select_sensor
    run_set_version sensor version s = select_sensor sensor version s

  -- The end of `swap_scene`, with the clutter of the new scene.
  unfoldable pub change_view : Text → Sensing Cam Det W → Sensing Cam Det W
  unfolding set_view rebuild_locked make_camera
  change_view clutter s =
      let c = set_view s.vision.target clutter s.camera in
      record s {
        camera = c;
        vision = rebuild_locked (make_camera c) (record (s.vision) { clutter = clutter });
      }

  unfoldable pub open_feed : Sensing Cam Det W → Sensing Cam Det W
  unfolding fed make_camera
  open_feed s = record s { feed = fed s.feed (make_camera s.camera) }

-- What is done to the sensors of a cell while it runs; a detector may find anything each time.
pub data Use {ℓ κ μ} (Cam : Type ℓ) (Det : Type κ) (W : Type μ) : Type (ℓ ⊔ κ ⊔ μ) where
  selects : Sensor → Text → (Det → List (Detection W)) → Use Cam Det W
  defines :
      Text → Factory Det (VisionContext Cam) → Select → (Det → List (Detection W)) → Use Cam Det W
  views : Text → Use Cam Det W
  looks : (Det → List (Detection W)) → Use Cam Det W
  feeds : Use Cam Det W

module _ {ℓ κ μ} {Cam : Type ℓ} {Det : Type κ} {W : Type μ} where
  unfoldable pub make_use : Use Cam Det W → Sensing Cam Det W → Sensing Cam Det W
  unfolding select_version install_vision change_view look open_feed make_camera
  make_use (selects sensor version detect) s = (select_version detect sensor version s).0
  make_use (defines id factory sel detect) s = record s {
    vision = install_vision detect (make_camera s.camera) id factory sel s.vision;
  }
  make_use (views clutter) s = change_view clutter s
  make_use (looks detect) s = record s { vision = (look detect s.vision).0 }
  make_use feeds s = open_feed s

  unfoldable pub make_uses : List (Use Cam Det W) → Sensing Cam Det W → Sensing Cam Det W
  unfolding make_use
  make_uses [] s = s
  make_uses (u ∷ us) s = make_uses us (make_use u s)

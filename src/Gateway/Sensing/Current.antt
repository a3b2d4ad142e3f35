-- ===== src/Gateway/Sensing/Current.antt =====
-- Whether the detector of a cell reads the camera that is selected.
use robonode.Prelude.{◌≡◌, refl, true, none, List, [], ◌∷◌, Text, Bool-cases, inl, inr}
use robonode.Core.Result.{success}
use robonode.Motion.ModuleRegistry.{has}
use robonode.Program.Runner.{Detection}
use robonode.Gateway.Sensing.{
  Sensing, Sensor, the_camera, the_vision, Use, selects, defines, views, looks, feeds, make_camera,
  select_camera, made_of, rebuild_locked, look, observe_part, select_vision, install_vision,
  select_sensor, after_select, select_version, run_set_version, change_view, open_feed, make_use,
  make_uses,
}

module _ {ℓ κ μ} {Cam : Type ℓ} {Det : Type κ} {W : Type μ} where
  -- The detector is what its version makes of the camera that is selected, and of what is in view.
  abbrev pub IsCurrent : Sensing Cam Det W → Type κ
  IsCurrent s = s.vision.detector ≡ made_of (make_camera s.camera) s.vision

  picks-IsCurrent :
      (detect : Det → List (Detection W)) (sensor : Sensor) (version : Text) (s : Sensing Cam Det W)
      → IsCurrent s
      → IsCurrent (select_version detect sensor version s).0
  unfolding select_version select_sensor after_select select_camera select_vision rebuild_locked
      observe_part look made_of
  picks-IsCurrent detect the_camera version s h =
      elim (Bool-cases (has version s.camera.registry)) [
        | inl known ↦ rw known refl
        | inr missing ↦ rw missing h
      ]
  picks-IsCurrent detect the_vision version s h =
      elim (Bool-cases (has version s.vision.registry)) [
        | inl known ↦ rw known refl
        | inr missing ↦ rw missing h
      ]

  make_use-IsCurrent :
      (u : Use Cam Det W) (s : Sensing Cam Det W) → IsCurrent s → IsCurrent (make_use u s)
  unfolding make_use install_vision change_view open_feed look observe_part rebuild_locked made_of
  make_use-IsCurrent (selects sensor version detect) s h = picks-IsCurrent detect sensor version s h
  make_use-IsCurrent (defines id factory sel detect) s h = refl
  make_use-IsCurrent (views clutter) s h = refl
  make_use-IsCurrent (looks detect) s h = h
  make_use-IsCurrent feeds s h = h

  -- Whatever a program selects, a user defines, a scene puts into view and a detector finds, and
  -- however these end: the detector stays what the version in force makes of the camera that is
  -- selected, and of what is in view, if it was so at first.
  pub make_uses-IsCurrent :
      (us : List (Use Cam Det W)) (s : Sensing Cam Det W) → IsCurrent s → IsCurrent (make_uses us s)
  unfolding make_uses
  make_uses-IsCurrent [] s h = h
  make_uses-IsCurrent (u ∷ us) s h = make_uses-IsCurrent us _ (make_use-IsCurrent u s h)

  -- A command set_version for a camera that is registered succeeds and names the version, but leaves
  -- the detector on the camera of before, and the feed as it is; the step of a program that selects
  -- the same makes the detector anew of the camera of that version, and drops the feed.
  pub run_set_version-stale :
      (detect : Det → List (Detection W)) (version : Text) (s : Sensing Cam Det W)
      → IsCurrent s
      → has version s.camera.registry ≡ true
      → let (a, told) = run_set_version detect the_camera version s in
        let (b, stepped) = select_version detect the_camera version s in
        (told ≡ success)
        × (stepped ≡ success)
        × (a.camera.version ≡ version)
        × (b.camera ≡ a.camera)
        × (a.vision.detector ≡ made_of (make_camera s.camera) s.vision)
        × (b.vision.detector ≡ made_of (make_camera a.camera) s.vision)
        × (a.feed ≡ s.feed)
        × (b.feed ≡ none)
  unfolding run_set_version select_version select_sensor after_select select_camera rebuild_locked
  run_set_version-stale detect version s h known =
      rw known (refl, refl, refl, refl, h, refl, refl, refl)

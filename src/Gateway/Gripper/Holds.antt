-- ===== src/Gateway/Gripper/Holds.antt =====
-- What the tool of gateway/sim_gripper.hpp holds after a grasp, and after a release.
use robonode.Prelude.{
  ◌≡◌, refl, ap, sym, Bool, true, false, Bool-cases, inl, inr, if◌then◌else◌, Option, none, some,
}
use robonode.Core.Double.{Double}
use robonode.Core.Result.{ok, err, Status}
use robonode.Core.Geometry.{Vec3}
use robonode.Gateway.Gripper.{
  Workpiece, GripError, nothing_held, already_holding, opened, Hold, apart, attach, attach_to,
  detach, close, grasp, grasp_attached, grasp_closed, release, release_detached,
}

module _ {ℓ} {W : Type ℓ} ⦃d : Double W⦄ (norm : Vec3 W → W) (p : Workpiece W) where
  -- A part that is seen within reach of the tool, of which none is held.
  abbrev pub IsAtTool : Type ℓ
  IsAtTool =
      (tool seen : Vec3 W) × (p.tool ≡ some tool)
      × (p.seen ≡ some seen)
      × (d.lt p.reach (apart norm seen tool) ≡ false)
      × (p.held ≡ false)

module _ {ℓ κ} {W : Type ℓ} {S : Type κ} ⦃d : Double W⦄ (norm : Vec3 W → W) (p : Workpiece W) where
  -- A grasp that succeeds was of a part at the tool, and holds it; one that fails changes nothing.
  abbrev pub GraspEnds : (Workpiece W × S) × Status GripError → Type ℓ
  GraspEnds ((p', s), ok _) = IsAtTool norm p × (p' ≡ record p { held = true })
  GraspEnds ((p', s), err why) = p' ≡ p

  closed-GraspEnds :
      (x : S × Status GripError)
      → IsAtTool norm p
      → GraspEnds (grasp_closed (record p { held = true }) x)
  unfolding grasp_closed detach
  closed-GraspEnds (s, ok _) t = (t, refl)
  closed-GraspEnds (s, err why) (tool, seen, e, f, g, free) =
      ap (λ b. record p { held = b }) (sym free)

module _ {ℓ κ} {W : Type ℓ} {S : Type κ} ⦃d : Double W⦄ (norm : Vec3 W → W) (hold : Hold S) where
  to-GraspEnds :
      (tool seen : Option (Vec3 W)) (p : Workpiece W) (s : S)
      → p.tool ≡ tool
      → p.seen ≡ seen
      → p.held ≡ false
      → GraspEnds norm p (grasp_attached norm hold (attach_to norm tool seen p) s)
  unfolding grasp_attached attach_to
  to-GraspEnds none seen p s e f free = refl
  to-GraspEnds (some tool) none p s e f free = refl
  to-GraspEnds (some tool) (some seen) p s e f free =
      elim (Bool-cases (d.lt p.reach (apart norm seen tool))) [
        | inl far ↦ rw far refl
        | inr near ↦ rw near (closed-GraspEnds norm p _ (tool, seen, e, f, near, free))
      ]

  held-GraspEnds :
      (p : Workpiece W) (s : S) (b : Bool)
      → p.held ≡ b
      → GraspEnds norm p (
          grasp_attached norm hold
            (if b then (p, err already_holding) else attach_to norm p.tool p.seen p)
            s)
  unfolding grasp_attached
  held-GraspEnds p s true e = refl
  held-GraspEnds p s false e = to-GraspEnds p.tool p.seen p s refl refl e

  -- A grasp that succeeds was of a part seen within reach of the tool, with none held, and holds it.
  -- A grasp that fails, also one that the world refuses, leaves the workpiece as it was.
  pub grasp-GraspEnds : (p : Workpiece W) (s : S) → GraspEnds norm p (grasp norm hold p s)
  unfolding grasp attach
  grasp-GraspEnds p s = held-GraspEnds p s p.held refl

module _ {ℓ κ} {W : Type ℓ} {S : Type κ} (hold : Hold S) where
  -- If the world refuses to open the tool, the part is no longer held all the same, and a second
  -- release fails without asking the world again.
  pub release-refused :
      (p : Workpiece W) (s s' : S) (why : GripError)
      → p.held ≡ true
      → close hold opened s ≡ (s', err why)
      → (release hold p s ≡ ((record p { held = false }, s'), err why))
        × (release hold (record p { held = false }) s'
            ≡ ((record p { held = false }, s'), err nothing_held))
  unfolding release release_detached detach
  release-refused p s s' why held e = (rw (held, e) refl, refl)

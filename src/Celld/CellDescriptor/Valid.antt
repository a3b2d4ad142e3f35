-- ===== src/Celld/CellDescriptor/Valid.antt =====
-- What the data that `validate` of celld/cell_descriptor.hpp passes is like.
use robonode.Prelude.{
  ◌≡◌, refl, Bool, true, not, List, [], ◌∷◌, ◌++◌, All, All-append, Text, is_empty, arith,
}
use robonode.Core.Result.{Result, ok, err, ◌>>◌, guard, Status, success}
use robonode.Celld.CellDescriptor.{
  CellNodeSpec, RobotSpec, CellDescriptor, has_axis, check_axis_refs, check_ids, check_robot,
  check_robots, validate,
}

-- A check followed by another passes if both do.
pub then_passes {ℓ} :
    {E : Type 0} {B : Type ℓ} (st : Status E) (r : Result E B) {b : B}
    → (st >> r) ≡ ok b
    → (st ≡ success) × (r ≡ ok b)
then_passes (ok tt) r done = (refl, done)
then_passes (err why) r done = ground arith

pub guard_passes : {E : Type 0} (b : Bool) (e : E) → guard b e ≡ success → b ≡ true
guard_passes b e done = ground arith

module _ {ℓ} {W : Type ℓ} (ns : List (CellNodeSpec W)) where
  axis_refs-HasAxis :
      (owner : Text) (ids : List Text)
      → check_axis_refs ns owner ids ≡ success
      → All (λ id. has_axis id ns ≡ true) ids
  unfolding check_axis_refs
  axis_refs-HasAxis owner [] done = tt
  axis_refs-HasAxis owner (id ∷ ids) done =
      let (here, later) = then_passes (guard (has_axis id ns) _) _ done in
      (guard_passes (has_axis id ns) _ here, axis_refs-HasAxis owner ids later)

  -- A robot of a valid descriptor: its chain names axes of the cell, its joints are some.
  abbrev pub IsBindable : RobotSpec → Type 0
  IsBindable r =
      All (λ id. has_axis id ns ≡ true) (r.carrier ++ r.joints) × (not (is_empty r.joints) ≡ true)

  robot-IsBindable : (r : RobotSpec) → check_robot ns r ≡ success → IsBindable r
  unfolding check_robot
  robot-IsBindable r done =
      let (carrier, d1) = then_passes (check_axis_refs ns r.id r.carrier) _ done in
      let (joints, d2) = then_passes (check_axis_refs ns r.id r.joints) _ d1 in
      let (some_joints, d3) = then_passes (guard (not (is_empty r.joints)) _) _ d2 in
      (
        All-append _ r.carrier r.joints (axis_refs-HasAxis r.id r.carrier carrier)
            (axis_refs-HasAxis r.id r.joints joints),
        guard_passes (not (is_empty r.joints)) _ some_joints,
      )

  robots-IsBindable : (rs : List RobotSpec) → check_robots ns rs ≡ success → All IsBindable rs
  unfolding check_robots
  robots-IsBindable [] done = tt
  robots-IsBindable (r ∷ rs) done =
      let (here, later) = then_passes (check_robot ns r) _ done in
      (robot-IsBindable r here, robots-IsBindable rs later)

pub validate-HasNodes {ℓ} :
    {W : Type ℓ} (desc : CellDescriptor W)
    → validate desc ≡ success
    → not (is_empty desc.nodes) ≡ true
unfolding validate
validate-HasNodes desc done =
    let (h1, d1) = then_passes (guard (not (is_empty desc.world)) _) _ done in
    let (h2, d2) = then_passes (guard (not (is_empty desc.nodes)) _) _ d1 in
    guard_passes (not (is_empty desc.nodes)) _ h2

pub validate-IsBindable {ℓ} :
    {W : Type ℓ} (desc : CellDescriptor W)
    → validate desc ≡ success
    → All (IsBindable desc.nodes) desc.robots
unfolding validate
validate-IsBindable desc done =
    let (h1, d1) = then_passes (guard (not (is_empty desc.world)) _) _ done in
    let (h2, d2) = then_passes (guard (not (is_empty desc.nodes)) _) _ d1 in
    let (h3, d3) = then_passes (guard (not (is_empty desc.families)) _) _ d2 in
    let (h4, d4) = then_passes (check_ids [] desc.nodes) _ d3 in
    let (h5, d5) = then_passes (check_robots desc.nodes desc.robots) _ d4 in
    robots-IsBindable desc.nodes desc.robots h5

-- ===== src/Motion/Planner/Registered.antt =====
-- `PlannerContext` of motion/planner.hpp, and the planners that every cell registers.
use robonode.Prelude.{ℕ, some, List, Text, bytes}
use robonode.Core.Double.{Double}
use robonode.Core.Geometry.{Maths, Vec3}
use robonode.Core.Map.{Map}
use robonode.Motion.Kinematics.{Kinematics, JointBound}
use robonode.Motion.ModuleRegistry.{Factory, add}
use robonode.Motion.Cartesian.Ik.{IkOptions}
use robonode.Motion.Planner.{Planner, cartesian_line_plan, joint_reach_plan, rendezvous_plan}
use robonode.Motion.Planner.Avoiding.{avoiding_plan}
use robonode.Motion.Planner.Posing.{pose_plan}

-- `Settings::Ik`; an int below 0 is as 0.
pub record IkSettings {ℓ} (W : Type ℓ) : Type ℓ where
  pub lambda : W
  pub tol_m : W
  pub max_iters : ℕ
  pub max_step_rad : W
  pub carrier_weight : W
  pub line_steps : ℕ
  pub sandbox_line_steps : ℕ
  pub lead_in_s : W
  pub tol_rad : W
  pub orientation_weight : W
  pub clearance_m : W

pub record PlannerContext {ℓ} (W : Type ℓ) : Type ℓ where
  pub kin : Kinematics W
  pub ik : IkSettings W
  pub bounds : List (JointBound W)
  pub weights : List W
  pub workspace_lo : Vec3 W
  pub workspace_hi : Vec3 W
  pub config : Map Text

unfoldable pub ik_options {ℓ} : {W : Type ℓ} → PlannerContext W → IkOptions W
ik_options c = record {
  lambda = c.ik.lambda;
  tol_m = c.ik.tol_m;
  max_iters = c.ik.max_iters;
  max_step_rad = c.ik.max_step_rad;
  bounds = c.bounds;
  weights = c.weights;
  tol_rad = c.ik.tol_rad;
  orientation_weight = c.ik.orientation_weight;
}

module _ {ℓ} {W : Type ℓ} ⦃d : Double W⦄ ⦃m : Maths W⦄ where
  unfoldable pub register_basic_planners :
      Map (Factory (Planner W) (PlannerContext W)) → Map (Factory (Planner W) (PlannerContext W))
  unfolding add ik_options cartesian_line_plan joint_reach_plan avoiding_plan pose_plan
      rendezvous_plan
  register_basic_planners reg =
      add (bytes "robonode.rendezvous")
        (λ c. some (rendezvous_plan c.kin c.ik.line_steps c.ik.lead_in_s (ik_options c)))
        (add (bytes "robonode.moveP") (λ c. some (pose_plan c.kin c.ik.line_steps (ik_options c)))
          (add (bytes "robonode.avoid")
            (λ c. some (avoiding_plan c.kin c.ik.line_steps c.ik.clearance_m (ik_options c)))
            (add (bytes "robonode.moveJ") (λ c. some (joint_reach_plan c.kin (ik_options c)))
              (add (bytes "robonode.moveL")
                (λ c. some (cartesian_line_plan c.kin c.ik.line_steps (ik_options c))) reg))))

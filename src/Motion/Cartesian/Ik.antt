-- ===== src/Motion/Cartesian/Ik.antt =====
-- Inverse kinematics of motion/cartesian.hpp: the damped iteration, from the seed and then from the middle of
-- the travel.
pub mod Within
use robonode.Prelude.{
  ℕ, zero, suc, ◌+◌, ◌*◌, ◌==◌, Bool, true, false, if◌then◌else◌, Option, none, some, List, [], ◌∷◌,
  get_elem?,
}
use robonode.Core.Double.{Double, nought, one, clamp}
use robonode.Core.Result.{Result, ok, err}
use robonode.Motion.Kinematics.{Kinematics, JointBound}
use robonode.Motion.Waypoints.{at}
use robonode.Motion.Cartesian.Solve.{solve_dense}

-- A bound on the iterations below 0 is as 0.
pub record IkOptions {ℓ} (W : Type ℓ) : Type ℓ where
  pub lambda : W
  pub tol_m : W
  pub max_iters : ℕ
  pub max_step_rad : W
  pub bounds : List (JointBound W)
  pub weights : List W
  pub tol_rad : W
  pub orientation_weight : W

pub record IkTask {ℓ} (W : Type ℓ) : Type ℓ where
  pub rows : ℕ
  pub residual : List W → List W
  pub jacobian : List W → List W
  pub distance : List W → W
  pub reached : List W → Bool

-- `short_by` with the millimetres, of a distance, and the iterations.
pub data IkError : Type 0 where
  seed_size degenerate_pose : IkError
  short_by : ℕ → ℕ → IkError

-- How `ik_from` ends: with the joints, or with `residual_m` and `singular`.
pub data IkEnd {ℓ} (W : Type ℓ) : Type ℓ where
  arrived : List W → IkEnd W
  gave_up : W → Bool → IkEnd W

-- The values of a loop that counts up from `k`.
unfoldable pub tabulate {ℓ} : {A : Type ℓ} → (ℕ → A) → ℕ → ℕ → List A
tabulate f zero k = []
tabulate f (suc n) k = f k ∷ tabulate f n (k + 1)

module _ {ℓ} {W : Type ℓ} ⦃d : Double W⦄ where
  unfoldable pub sum_from : (ℕ → W) → ℕ → ℕ → W → W
  sum_from f zero k acc = acc
  sum_from f (suc n) k acc = sum_from f n (k + 1) (d.add acc (f k))

  unfoldable pub weight : ℕ → IkOptions W → W
  weight k opt = elim (get_elem? opt.weights k) [ none ↦ one | some w ↦ w ]

  unfoldable pub clamped_by : Option (JointBound W) → W → W
  unfolding clamp
  clamped_by none q = q
  clamped_by (some b) q = clamp q b.lo b.hi

  unfoldable pub project : W → ℕ → IkOptions W → W
  unfolding clamped_by
  project q k opt = clamped_by (get_elem? opt.bounds k) q

  unfoldable pub middle : JointBound W → W
  middle b = d.mul (d.decimal 5 1) (d.add b.lo b.hi)

  unfoldable pub middle_or : Option (JointBound W) → W → W
  unfolding middle
  middle_or none q = q
  middle_or (some b) q = middle b

  -- The loop of `mid_travel`, from the joint `k`.
  unfoldable pub mid_from : List (JointBound W) → ℕ → List W → List W
  unfolding middle_or
  mid_from bs k [] = []
  mid_from bs k (x ∷ q) = middle_or (get_elem? bs k) x ∷ mid_from bs (k + 1) q

  unfoldable pub mid_travel : List W → IkOptions W → List W
  unfolding mid_from
  mid_travel like opt = mid_from opt.bounds 0 like

  -- `A = J W Jᵀ + λ²I`, by its rows.
  unfoldable pub damped : ℕ → ℕ → List W → IkOptions W → List (List W)
  unfolding tabulate sum_from at weight
  damped m n js opt =
      tabulate
        (λ r.
          tabulate
            (λ c.
              d.add
                (sum_from
                  (λ k. d.mul (d.mul (at js (r * n + k)) (weight k opt)) (at js (c * n + k))) n 0
                  nought)
                (if r == c then d.mul opt.lambda opt.lambda else nought))
            m 0)
        m 0

  -- The step of one joint, `dq = W Jᵀ y` within its clamp.
  unfoldable pub joint_step : ℕ → ℕ → List W → List W → IkOptions W → ℕ → W
  unfolding sum_from at weight clamp
  joint_step m n js y opt k =
      let dq = sum_from (λ r. d.mul (at js (r * n + k)) (at y r)) m 0 nought in
      clamp (d.mul (weight k opt) dq) (d.neg opt.max_step_rad) opt.max_step_rad

  -- The loop over the joints, from the joint `k`.
  unfoldable pub moved : (ℕ → W) → IkOptions W → ℕ → ℕ → List W → List W
  unfolding project
  moved step opt zero k q = q
  moved step opt (suc n) k [] = []
  moved step opt (suc n) k (x ∷ q) = project (d.add x (step k)) k opt ∷ moved step opt n (k + 1) q

  unfoldable pub move_joints :
      Kinematics W → IkTask W → IkOptions W → List W → Option (List W) → Option (List W)
  unfolding joint_step moved
  move_joints kin task opt q none = none
  move_joints kin task opt q (some y) =
      some (moved (joint_step task.rows kin.dof (task.jacobian q) y opt) opt kin.dof 0 q)

  -- One iteration: the joints it moves to, or nothing where the damped system is singular.
  unfoldable pub iterate : Kinematics W → IkTask W → IkOptions W → List W → Option (List W)
  unfolding damped move_joints solve_dense
  iterate kin task opt q =
      move_joints kin task opt q
        (solve_dense (damped task.rows kin.dof (task.jacobian q) opt) (task.residual q))

  -- The loop of `ik_from`, with the iterations left and `residual_m`.
  unfoldable pub ik_loop : Kinematics W → IkTask W → IkOptions W → ℕ → W → List W → IkEnd W
  unfolding iterate
  ik_loop kin task opt zero residual q = gave_up residual false
  ik_loop kin task opt (suc left) residual q =
      let e = task.residual q in
      elim (task.reached e) [
        | true ↦ arrived q
        | false ↦ elim (iterate kin task opt q) [
          | none ↦ gave_up (task.distance e) true
          | some q' ↦ ik_loop kin task opt left (task.distance e) q'
        ]
      ]

  unfoldable pub ik_from : Kinematics W → List W → IkTask W → IkOptions W → IkEnd W
  unfolding ik_loop
  ik_from kin q task opt = ik_loop kin task opt opt.max_iters (task.distance (task.residual q)) q

  unfoldable pub why_not : W → Bool → IkOptions W → IkError
  why_not residual singular opt =
      if singular
      then degenerate_pose
      else short_by (d.trunc (d.mul residual (d.of_nat 1000))) opt.max_iters

  -- `ik_two_seeds` after its second solve, with what the first left.
  unfoldable pub second_seed : IkOptions W → W → Bool → IkEnd W → Result IkError (List W)
  unfolding why_not
  second_seed opt from_seed seed_singular (arrived q) = ok q
  second_seed opt from_seed seed_singular (gave_up from_middle middle_singular) =
      if d.le from_seed from_middle
      then err (why_not from_seed seed_singular opt)
      else err (why_not from_middle middle_singular opt)

  unfoldable pub first_seed : IkOptions W → IkEnd W → IkEnd W → Result IkError (List W)
  unfolding second_seed
  first_seed opt (arrived q) again = ok q
  first_seed opt (gave_up from_seed seed_singular) again =
      second_seed opt from_seed seed_singular again

  unfoldable pub ik_two_seeds :
      Kinematics W → List W → IkTask W → IkOptions W → Result IkError (List W)
  unfolding first_seed ik_from mid_travel
  ik_two_seeds kin q_seed task opt =
      first_seed opt (ik_from kin q_seed task opt) (ik_from kin (mid_travel q_seed opt) task opt)

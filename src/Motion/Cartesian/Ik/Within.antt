-- ===== src/Motion/Cartesian/Ik/Within.antt =====
-- The iteration of motion/cartesian.hpp keeps every joint inside its travel.
use robonode.Prelude.{
  ℕ, zero, suc, ◌+◌, ◌≡◌, refl, ◌∙◌, ap, Bool, true, false, Option, none, some, if◌then◌else◌, List,
  [], ◌∷◌, length, get_elem?, arith, All,
}
use robonode.Core.Double.{Double, clamp}
use robonode.Core.Result.{err, Post, Post-weaken, returns, raises}
use robonode.Motion.Kinematics.{Kinematics, JointBound}
use robonode.Motion.Cartesian.Ik.{
  IkOptions, IkTask, IkError, IkEnd, arrived, gave_up, project, clamped_by, middle, middle_or,
  move_joints, mid_from, mid_travel, moved, iterate, ik_loop, ik_from, first_seed, ik_two_seeds,
}
use robonode.Motion.Cartesian.Solve.{solve_dense}

module _ {ℓ} {W : Type ℓ} ⦃d : Double W⦄ where
  -- Neither below the lower bound nor above the upper one.
  abbrev pub Inside : JointBound W → W → Type 0
  Inside b x = (d.lt x b.lo ≡ false) × (d.lt b.hi x ≡ false)

  -- A travel contains its ends and the middle that is computed of it.
  pub record IsTravel (b : JointBound W) : Type 0 where
    pub lo_inside : Inside b b.lo
    pub hi_inside : Inside b b.hi
    pub middle_inside : Inside b (middle b)

  abbrev pub InsideIf : Option (JointBound W) → W → Type 0
  InsideIf none x = Unit
  InsideIf (some b) x = Inside b x

  -- The joints from the joint `k` on are inside their bounds, where they have some.
  abbrev pub InTravel : List (JointBound W) → ℕ → List W → Type 0
  InTravel bs k [] = Unit
  InTravel bs k (x ∷ q) = InsideIf (get_elem? bs k) x × InTravel bs (k + 1) q

  clamp-Inside : (b : JointBound W) (x : W) → IsTravel b → Inside b (clamp x b.lo b.hi)
  unfolding clamp
  clamp-Inside b x t = ground (arith, t.lo_inside, t.hi_inside)

  -- A bound that is looked up holds of what is made by a function that keeps every travel.
  at-InsideIf :
      (bs : List (JointBound W)) (k : ℕ) (f : Option (JointBound W) → W)
      → All IsTravel bs
      → ((b : JointBound W) → IsTravel b → Inside b (f (some b)))
      → InsideIf (get_elem? bs k) (f (get_elem? bs k))
  at-InsideIf [] k f t h = tt
  at-InsideIf (b ∷ bs) zero f t h = h b t.0
  at-InsideIf (b ∷ bs) (suc k) f t h = at-InsideIf bs k f t.1 h

  mid_from-InTravel :
      (bs : List (JointBound W)) (k : ℕ) (q : List W)
      → All IsTravel bs
      → InTravel bs k (mid_from bs k q)
  unfolding mid_from middle_or
  mid_from-InTravel bs k [] t = tt
  mid_from-InTravel bs k (x ∷ q) t = (
    at-InsideIf bs k (λ b. middle_or b x) t (λ b travel. travel.middle_inside),
    mid_from-InTravel bs (k + 1) q t,
  )

  length-mid_from :
      (bs : List (JointBound W)) (k : ℕ) (q : List W) → length (mid_from bs k q) ≡ length q
  unfolding mid_from
  length-mid_from bs k [] = refl
  length-mid_from bs k (x ∷ q) = ap suc (length-mid_from bs (k + 1) q)

  moved-InTravel :
      (step : ℕ → W) (opt : IkOptions W) (n k : ℕ) (q : List W)
      → All IsTravel opt.bounds
      → InTravel opt.bounds k q
      → InTravel opt.bounds k (moved step opt n k q)
  unfolding moved project clamped_by
  moved-InTravel step opt zero k q t h = h
  moved-InTravel step opt (suc n) k [] t h = tt
  moved-InTravel step opt (suc n) k (x ∷ q) t h = (
    at-InsideIf opt.bounds k (λ b. clamped_by b (d.add x (step k))) t
        (λ b travel. clamp-Inside b _ travel),
    moved-InTravel step opt n (k + 1) q t h.1,
  )

  length-moved :
      (step : ℕ → W) (opt : IkOptions W) (n k : ℕ) (q : List W)
      → length (moved step opt n k q) ≡ length q
  unfolding moved
  length-moved step opt zero k q = refl
  length-moved step opt (suc n) k [] = refl
  length-moved step opt (suc n) k (x ∷ q) = ap suc (length-moved step opt n (k + 1) q)

  -- What the steps of the iteration keep, it keeps.
  module _ (kin : Kinematics W) (opt : IkOptions W) (Kept : List W → Type 0)
      (moves : (step : ℕ → W) (q : List W) → Kept q → Kept (moved step opt kin.dof 0 q)) where
    -- Kept, and where the task has reached its end.
    abbrev pub Reached : IkTask W → List W → Type 0
    Reached task q = (task.reached (task.residual q) ≡ true) × Kept q

    abbrev Ends : IkTask W → IkEnd W → Type 0
    Ends task (arrived q) = Reached task q
    Ends task (gave_up residual singular) = Unit

    abbrev KeptIf : Option (List W) → Type 0
    KeptIf none = Unit
    KeptIf (some q) = Kept q

    joints-Kept :
        (task : IkTask W) (q : List W) (y : Option (List W))
        → Kept q
        → KeptIf (move_joints kin task opt q y)
    unfolding move_joints
    joints-Kept task q none p = tt
    joints-Kept task q (some y) p = moves _ q p

    iterate-Kept : (task : IkTask W) (q : List W) → Kept q → KeptIf (iterate kin task opt q)
    unfolding iterate
    iterate-Kept task q p = joints-Kept task q (solve_dense _ _) p

    next-Ends :
        (task : IkTask W) (q : List W) (next : Option (List W)) (rest : List W → IkEnd W)
        → ((q' : List W) → Kept q' → Ends task (rest q'))
        → KeptIf next
        → Ends task (elim next [
          | none ↦ gave_up (task.distance (task.residual q)) true
          | some q' ↦ rest q'
        ])
    next-Ends task q none rest ih p = tt
    next-Ends task q (some q') rest ih p = ih q' p

    test-Ends :
        (task : IkTask W) (q : List W) (b : Bool) (rest : IkEnd W)
        → task.reached (task.residual q) ≡ b
        → Kept q
        → Ends task rest
        → Ends task (elim b [ true ↦ arrived q | false ↦ rest ])
    test-Ends task q true rest e p h = (e, p)
    test-Ends task q false rest e p h = h

    ik_loop-Ends :
        (task : IkTask W) (left : ℕ) (residual : W) (q : List W)
        → Kept q
        → Ends task (ik_loop kin task opt left residual q)
    unfolding ik_loop
    ik_loop-Ends task zero residual q p = tt
    ik_loop-Ends task (suc left) residual q p =
        test-Ends task q (task.reached (task.residual q)) _ refl p (
          next-Ends task q (iterate kin task opt q) (ik_loop kin task opt left _)
            (ik_loop-Ends task left _) (iterate-Kept task q p))

    -- Also where it starts anew from the middle of the travel, if that keeps it.
    ik_two_seeds-Reached :
        (task : IkTask W) (q_seed : List W)
        → Kept q_seed
        → Kept (mid_from opt.bounds 0 q_seed)
        → Post (Reached task) (λ e. Unit) (ik_two_seeds kin q_seed task opt)
    unfolding ik_two_seeds ik_from mid_travel
    ik_two_seeds-Reached task q_seed p mid =
        ends _ _ (ik_loop-Ends task opt.max_iters _ q_seed p)
          (ik_loop-Ends task opt.max_iters _ (mid_from opt.bounds 0 q_seed) mid)
      where
        raised :
            (b : Bool) (e f : IkError)
            → Post (Reached task) (λ (e : IkError). Unit {0}) (if b then err e else err f)
        raised true e f = raises tt
        raised false e f = raises tt

        ends :
            (one two : IkEnd W)
            → Ends task one
            → Ends task two
            → Post (Reached task) (λ e. Unit) (first_seed opt one two)
        ends (arrived q) two h k = returns h
        ends (gave_up r s) (arrived q) h k = returns k
        ends (gave_up r s) (gave_up t u) h k = raised (d.le r t) _ _

  -- The inverse kinematics finds as many values as its seed has.
  pub ik_two_seeds-length :
      (kin : Kinematics W) (opt : IkOptions W) (task : IkTask W) (n : ℕ) (q_seed : List W)
      → length q_seed ≡ n
      → Post (λ q. length q ≡ n) (λ e. Unit) (ik_two_seeds kin q_seed task opt)
  ik_two_seeds-length kin opt task n q_seed size =
      Post-weaken
        (ik_two_seeds-Reached kin opt (λ q. length q ≡ n)
          (λ step q same. length-moved step opt kin.dof 0 q ∙ same) task q_seed size
          (length-mid_from opt.bounds 0 q_seed ∙ size))
        (λ q (solved, same). same)

  module _ (kin : Kinematics W) (opt : IkOptions W) (bounded : All IsTravel opt.bounds) where
    -- A configuration of the arm: a value for each joint, inside its travel.
    abbrev pub Posture : List W → Type 0
    Posture q = (length q ≡ kin.dof) × InTravel opt.bounds 0 q

    -- A posture where the task has reached its end.
    abbrev pub Solved : IkTask W → List W → Type 0
    Solved task q = (task.reached (task.residual q) ≡ true) × Posture q

    abbrev pub Any : IkError → Type 0
    Any e = Unit

    -- What the inverse kinematics finds solves its task, and is a posture, if the seed is one.
    pub ik_two_seeds-Solved :
        (task : IkTask W) (q_seed : List W)
        → Posture q_seed
        → Post (Solved task) Any (ik_two_seeds kin q_seed task opt)
    ik_two_seeds-Solved task q_seed p =
        ik_two_seeds-Reached kin opt Posture
          (λ step q (n, h).
            (length-moved step opt kin.dof 0 q ∙ n, moved-InTravel step opt kin.dof 0 q bounded h))
          task q_seed p
          (length-mid_from opt.bounds 0 q_seed ∙ p.0, mid_from-InTravel opt.bounds 0 q_seed bounded)

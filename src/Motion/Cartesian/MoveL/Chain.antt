-- ===== src/Motion/Cartesian/MoveL/Chain.antt =====
-- The waypoints of `plan_move_l` of motion/cartesian.hpp: their shape, and how each configuration
-- comes of the one before it.
use mathlib.Core.Path.{subst}
use robonode.Prelude.{
  ℕ, zero, suc, ◌+◌, ◌<◌, ◌≡◌, refl, sym, ◌∙◌, ◌==◌, ==_iff, ◌⊎◌, inl, inr, ltb, List, [], ◌∷◌, map,
  length, length-map, arith,
}
use robonode.Core.Double.{Double}
use robonode.Core.Geometry.{Maths, Vec3}
use robonode.Core.Result.{Result, ok, err, Post, returns, raises, Post-guard, Post-bind, Post-ok}
use robonode.Motion.Kinematics.{Kinematics}
use robonode.Motion.Waypoints.{column, push_column}
use robonode.Motion.Waypoints.Table.{
  AllLength, length-push_column, push_column-AllLength, column-push_lt, column-push_last,
  first-AllLength, column-first,
}
use robonode.Motion.Cartesian.Ik.{IkOptions, IkError}
use robonode.Motion.Cartesian.Ik.Within.{ik_two_seeds-length}
use robonode.Motion.Cartesian.Reach.{position_task, ik_position}
use robonode.Motion.Cartesian.MoveL.{MoveError, at_step, on_line, walk, plan_move_l}

module _ {ℓ} {W : Type ℓ} ⦃d : Double W⦄ ⦃m : Maths W⦄ (kin : Kinematics W)
    (opt : IkOptions W) where
  -- Waypoints of `n` steps from `q_start` to `q_end`, each found from the configuration before it, for
  -- its point of the line.
  pub record IsChain (line : ℕ → Vec3 W) (q_start : List W) (n : ℕ) (q_end : List W)
      (wps : List (List W)) : Type ℓ where
    pub joints : length wps ≡ kin.dof
    pub steps : AllLength (suc n) wps
    pub first : column 0 wps ≡ q_start
    pub last : column n wps ≡ q_end
    pub links :
        (j : ℕ)
        → j < n
        → ik_position kin (column j wps) (line (suc j)) opt ≡ ok (column (suc j) wps)

  first-IsChain :
      (line : ℕ → Vec3 W) (q_start : List W)
      → length q_start ≡ kin.dof
      → IsChain line q_start 0 q_start (map (λ x. x ∷ []) q_start)
  first-IsChain line q_start size = record {
    joints = length-map q_start _ ∙ size;
    steps = first-AllLength q_start;
    first = column-first q_start;
    last = column-first q_start;
    links = λ j below. absurd (omega arith);
  }

  push-IsChain :
      (line : ℕ → Vec3 W) (q_start q q_next : List W) (n : ℕ) (wps : List (List W))
      → IsChain line q_start n q wps
      → length q_next ≡ kin.dof
      → ik_position kin q (line (suc n)) opt ≡ ok q_next
      → IsChain line q_start (suc n) q_next (push_column wps q_next)
  push-IsChain line q_start q q_next n wps i size found = record {
    joints = length-push_column wps q_next ∙ i.joints;
    steps = push_column-AllLength wps q_next (suc n) same i.steps;
    first = kept 0 (omega arith) ∙ i.first;
    last = column-push_last wps q_next (suc n) same i.steps;
    links = λ j below. elim (old_or_new j below) [
      | inl old ↦ rw (kept j (omega arith), kept (suc j) (omega arith)) (i.links j old)
      | inr new ↦
          rw (new, kept n (omega arith), i.last, column-push_last wps q_next (suc n) same i.steps)
            found
    ];
  }
    where
      same : length wps ≡ length q_next
      same = i.joints ∙ sym size

      kept : (j : ℕ) → j < suc n → column j (push_column wps q_next) ≡ column j wps
      kept j below = column-push_lt wps q_next (suc n) j same i.steps below

      old_or_new : (j : ℕ) → j < suc n → (j < n) ⊎ (j ≡ n)
      old_or_new j h = ground arith

  -- What is found at a step is as long as the arm has joints.
  abbrev pub Found : Vec3 W → List W → List W → Type ℓ
  Found p q q_next = (length q_next ≡ kin.dof) × (ik_position kin q p opt ≡ ok q_next)

  ik_position-length :
      (q : List W) (p : Vec3 W)
      → Post
          (λ q_next. length q_next ≡ kin.dof)
          (λ (e : IkError). Unit {0})
          (ik_position kin q p opt)
  unfolding ik_position
  ik_position-length q p = Post-guard (length q == kin.dof) _ tt (λ size.
      ik_two_seeds-length kin opt (position_task kin p opt) kin.dof q ((==_iff _ _).0 size))

  step-Found :
      (s : ℕ) (q : List W) (p : Vec3 W)
      → Post (Found p q) (λ (e : MoveError). Unit {0}) (at_step s (ik_position kin q p opt))
  unfolding at_step
  step-Found s q p = go _ refl (ik_position-length q p)
    where
      go :
          (r : Result IkError (List W))
          → ik_position kin q p opt ≡ r
          → Post (λ q_next. length q_next ≡ kin.dof) (λ (e : IkError). Unit {0}) r
          → Post (Found p q) (λ (e : MoveError). Unit {0}) (at_step s r)
      go (ok q_next) e (returns size) = returns (size, e)
      go (err why) e h = raises tt

  -- A chain of the line that ends somewhere.
  abbrev pub Chained : (ℕ → Vec3 W) → List W → ℕ → List (List W) → Type ℓ
  Chained line q_start n wps = (q_end : List W) × IsChain line q_start n q_end wps

  walk-Chained :
      (line : ℕ → Vec3 W) (q_start : List W) (left n s stop : ℕ) (q : List W) (wps : List (List W))
      → s ≡ suc n
      → n + left ≡ stop
      → IsChain line q_start n q wps
      → Post
          (Chained line q_start stop)
          (λ (e : MoveError). Unit {0})
          (walk kin opt line left s q wps)
  unfolding walk
  walk-Chained line q_start zero n s stop q wps e end i =
      returns (subst (λ k. Chained line q_start k wps) (omega (arith, end)) (q, i))
  walk-Chained line q_start (suc left) n s stop q wps e end i =
      Post-bind (step-Found s q (line s)) (λ q_next (size, found).
        walk-Chained line q_start left (suc n) (s + 1) stop q_next _ (omega (arith, e))
          (omega (arith, end))
          (push-IsChain line q_start q q_next n wps i size
            (subst (λ k. ik_position kin q (line k) opt ≡ ok q_next) e found)))

  chained :
      (q_start : List W) (target : Vec3 W) (n_steps : ℕ)
      → Post
          (Chained (on_line (kin.tcp_position q_start) target n_steps) q_start n_steps)
          (λ (e : MoveError). Unit {0})
          (plan_move_l kin q_start target n_steps opt)
  unfolding plan_move_l
  chained q_start target n_steps = Post-guard (length q_start == kin.dof) _ tt (λ size.
      Post-guard (ltb 0 n_steps) _ tt (λ some_steps.
        walk-Chained _ q_start n_steps 0 1 n_steps q_start _ refl (omega arith)
          (first-IsChain _ q_start ((==_iff _ _).0 size))))

  -- The waypoints of a straight move, whatever the bounds and the start: one list for each joint, each
  -- of `n_steps + 1` positions, the first of which are those of the start, and each configuration
  -- after it is what the inverse kinematics finds for its point of the line, from the configuration
  -- before.
  pub plan_move_l-linked :
      (q_start : List W) (target : Vec3 W) (n_steps : ℕ) (wps : List (List W))
      → plan_move_l kin q_start target n_steps opt ≡ ok wps
      → (length wps ≡ kin.dof)
        × AllLength (n_steps + 1) wps
        × (column 0 wps ≡ q_start)
        × ((j : ℕ)
            → j < n_steps
            → ik_position kin
                (column j wps)
                (on_line (kin.tcp_position q_start) target n_steps (j + 1))
                opt
              ≡ ok (column (j + 1) wps))
  plan_move_l-linked q_start target n_steps wps done =
      let (q_end, i) = Post-ok (
        subst
          (Post (Chained (on_line (kin.tcp_position q_start) target n_steps) q_start n_steps)
            (λ (e : MoveError). Unit {0}))
          done (chained q_start target n_steps)) in
      (
        i.joints,
        subst (λ n. AllLength n wps) (omega arith) i.steps,
        i.first,
        λ j below.
            subst
              (λ k.
                ik_position kin (column j wps) (on_line (kin.tcp_position q_start) target n_steps k)
                  opt
                ≡ ok (column k wps))
              (omega arith) (i.links j below),
      )

-- ===== src/Celld/Robot/Composed.antt =====
-- What `compose` of celld/robot_node.hpp makes of the waypoints of the joints.
use robonode.Prelude.{
  ℕ, zero, suc, ◌≡◌, ◌≢◌, refl, ◌∙◌, ap, not, List, [], ◌∷◌, map, length, length-map,
  length-replicate, replicate, some, get_elem?, All, Text, arith, ◌==◌, ==_iff,
}
use robonode.Core.Double.{Double}
use mathlib.Core.Path.{subst}
use mathlib.Core.Option
use robonode.Core.Result.{ok, guard, Post, returns, Post-guard, Post-weaken, Post-ok}
use robonode.Celld.CellDescriptor.Valid.{then_passes}
use robonode.Celld.Driver.{Drivers}
use robonode.Celld.Cell.{Node, Cell}
use robonode.Celld.Robot.{
  RobotNode, RobotError, ragged, set_at, hold_all, compose_joints, compose, steps_of,
}

module _ {ℓ} {A : Type ℓ} where
  length-set_at : (i : ℕ) (x : A) (xs : List A) → length (set_at i x xs) ≡ length xs
  unfolding set_at
  length-set_at i x [] = refl
  length-set_at zero x (y ∷ ys) = refl
  length-set_at (suc i) x (y ∷ ys) = omega (arith, length-set_at i x ys)

  set_at-All {κ} :
      (P : A → Type κ) (i : ℕ) (x : A) (xs : List A) → P x → All P xs → All P (set_at i x xs)
  unfolding set_at
  set_at-All P i x [] h k = tt
  set_at-All P zero x (y ∷ ys) h (k, ks) = (h, ks)
  set_at-All P (suc i) x (y ∷ ys) h (k, ks) = (k, set_at-All P i x ys h ks)

  get_elem?-set_at :
      (i j : ℕ) (x : A) (xs : List A) → i ≢ j → get_elem? (set_at i x xs) j ≡ get_elem? xs j
  unfolding set_at
  get_elem?-set_at i j x [] h = refl
  get_elem?-set_at zero zero x (y ∷ ys) h = elim (h refl) [ ]
  get_elem?-set_at zero (suc j) x (y ∷ ys) h = refl
  get_elem?-set_at (suc i) zero x (y ∷ ys) h = refl
  get_elem?-set_at (suc i) (suc j) x (y ∷ ys) h = get_elem?-set_at i j x ys (λ e. h (ap suc e))

module _ {ℓ κ μ} {W : Type ℓ} {S : Type κ} {A : Type μ} ⦃d : Double W⦄ (io : Drivers W S A) where
  length-hold_all :
      (steps : ℕ) (ns : List (Node W A)) (s : S) → length (hold_all io steps ns s) ≡ length ns
  unfolding hold_all
  length-hold_all steps [] s = refl
  length-hold_all steps (n ∷ ns) s = omega (arith, length-hold_all steps ns s)

  -- Each list has `steps` entries.
  abbrev pub Even : ℕ → List (List W) → Type 0
  Even steps ws = All (λ (w : List W). length w ≡ steps) ws

  hold_all-Even : (steps : ℕ) (ns : List (Node W A)) (s : S) → Even steps (hold_all io steps ns s)
  unfolding hold_all
  hold_all-Even steps [] s = tt
  hold_all-Even steps (n ∷ ns) s = (length-replicate steps _, hold_all-Even steps ns s)

  -- `ws'` has as many lists as `ws`, of `steps` entries each, and those outside `joints` are the
  -- same.
  abbrev Composes : ℕ → List ℕ → List (List W) → List (List W) → Type ℓ
  Composes steps joints ws ws' =
      (length ws' ≡ length ws)
      × Even steps ws'
      × ((j : ℕ) → All (λ i. i ≢ j) joints → get_elem? ws' j ≡ get_elem? ws j)

  Composes-self :
      (steps : ℕ) (is : List ℕ) (out : List (List W)) → Even steps out → Composes steps is out out
  Composes-self steps is out e = (refl, e, λ j h. refl)

  -- Another list at the joint `i`, and then the joints of `is`.
  Composes-set_at :
      (steps i : ℕ) (is : List ℕ) (w : List W) (out ws' : List (List W))
      → Composes steps is (set_at i w out) ws'
      → Composes steps (i ∷ is) out ws'
  Composes-set_at steps i is w out ws' (len, e, others) =
      (len ∙ length-set_at i w out, e, λ j (h, hs). others j hs ∙ get_elem?-set_at i j w out h)

  joints-Composes :
      (id : Text) (steps : ℕ) (is : List ℕ) (us : List W) (ws out : List (List W))
      → Even steps out
      → Post
          (Composes steps is out)
          (λ (e : RobotError). Unit)
          (compose_joints io id steps is us ws out)
  unfolding compose_joints
  joints-Composes id steps [] us ws out e = returns (Composes-self steps [] out e)
  joints-Composes id steps (i ∷ is) [] ws out e = returns (Composes-self steps (i ∷ is) out e)
  joints-Composes id steps (i ∷ is) (u ∷ us) [] out e = returns (Composes-self steps (i ∷ is) out e)
  joints-Composes id steps (i ∷ is) (u ∷ us) (w ∷ ws) out e =
      Post-guard (length w == steps) (ragged id) tt (λ h.
        let scaled = map (λ q. d.mul q u) w in
        let long : length scaled ≡ steps = length-map w _ ∙ (==_iff (length w) steps).0 h in
        Post-weaken
          (joints-Composes id steps is us ws (set_at i scaled out)
            (set_at-All _ i scaled out long e))
          (λ ws' c. Composes-set_at steps i is scaled out ws' c))

  hold_all-at :
      (steps j : ℕ) (ns : List (Node W A)) (n : Node W A) (s : S)
      → get_elem? ns j ≡ some n
      → get_elem? (hold_all io steps ns s) j
        ≡ some (replicate steps (Drivers.read io n.adapter s).position)
  unfolding hold_all
  hold_all-at steps j [] n s h = absurd (ground arith)
  hold_all-at steps zero (n' ∷ ns) n s h =
      ap (Option.map (λ (x : Node W A). replicate steps (Drivers.read io x.adapter s).position)) h
  hold_all-at steps (suc j) (n' ∷ ns) n s h = hold_all-at steps j ns n s h

  -- One list for each node, of `steps` entries each; that of a node outside `joints` repeats the
  -- position that its adapter reads.
  abbrev pub ComposesCell : ℕ → List ℕ → List (Node W A) → S → List (List W) → Type (ℓ ⊔ μ)
  ComposesCell steps joints ns s ws =
      (length ws ≡ length ns)
      × Even steps ws
      × ((j : ℕ) (n : Node W A)
          → get_elem? ns j ≡ some n
          → All (λ i. i ≢ j) joints
          → get_elem? ws j ≡ some (replicate steps (Drivers.read io n.adapter s).position))

  composed :
      (r : RobotNode W) (c : Cell W S A) (waypoints cell_waypoints : List (List W))
      → compose io r c waypoints ≡ ok cell_waypoints
      → Composes
          (steps_of waypoints)
          r.joints
          (hold_all io (steps_of waypoints) c.nodes c.world)
          cell_waypoints
  unfolding compose
  composed r c waypoints cell_waypoints done =
      let steps = steps_of waypoints in
      let (h1, d1) = then_passes (guard (length waypoints == length r.joints) _) _ done in
      let (h2, d2) = then_passes (guard (not (steps == 0)) _) _ d1 in
      Post-ok (
        subst (Post _ (λ (e : RobotError). Unit)) d2 (
          joints-Composes r.id steps r.joints r.per_m waypoints (hold_all io steps c.nodes c.world)
            (hold_all-Even steps c.nodes c.world)))

  -- If the waypoints of the joints are composed at all, there is one list for each node of the cell,
  -- each as long as the list of the first joint, and a node that is not a joint of the robot is
  -- given, at every step, the position that its adapter reads.
  pub compose-ComposesCell :
      (r : RobotNode W) (c : Cell W S A) (waypoints cell_waypoints : List (List W))
      → compose io r c waypoints ≡ ok cell_waypoints
      → ComposesCell (steps_of waypoints) r.joints c.nodes c.world cell_waypoints
  compose-ComposesCell r c waypoints cell_waypoints done =
      let steps = steps_of waypoints in
      let (len, even, others) = composed r c waypoints cell_waypoints done in
      (
        len ∙ length-hold_all steps c.nodes c.world,
        even,
        λ j n at outside. others j outside ∙ hold_all-at steps j c.nodes n c.world at,
      )

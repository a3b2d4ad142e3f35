-- ===== src/Celld/Example.antt =====
-- A cell over whole numbers: its devices go where they are told, and the eighth refuses to be
-- configured.
use robonode.Prelude.{
  ℕ, ◌+◌, ◌≡◌, ◌≢◌, refl, true, false, Bool-cases, inl, inr, if◌then◌else◌, ◌==◌, some, [], ◌∷◌,
  Text, bytes, arith,
}
use robonode.Prelude.Int.{pos}
use robonode.Core.Result.{ok, err, success}
use robonode.Core.Double.Whole.{Whole, whole}
use robonode.Motion.Limits.{AxisLimits, normal}
use robonode.Celld.Driver.{Lifecycle, inactive, active, Drivers, Controllers, IsLawful}
use robonode.Celld.Cell.{Node, Cell}
use robonode.Celld.CellDescriptor.{CellNodeSpec, RobotSpec, CellDescriptor}

abbrev pub num : ℕ → Whole
num n = some (pos n)

pub record World : Type 0 where
  pub life : ℕ → Lifecycle
  pub spot : ℕ → Whole
  pub made : ℕ

abbrev pub in_state : ℕ → Lifecycle → World → World
in_state a l w = record w { life = λ b. if a == b then l else w.life b }

abbrev pub devices : Drivers Whole World ℕ
devices = record {
  make = λ driver ctx w. (record w { made = w.made + 1 }, ok w.made);
  configure =
      λ a w. if a == 7 then (w, err (bytes "no such joint")) else (in_state a inactive w, success);
  activate = λ a w. (in_state a active w, success);
  deactivate = λ a w. (in_state a inactive w, success);
  lifecycle = λ a w. w.life a;
  read = λ a w. record { position = w.spot a; velocity = num 0; safety = normal };
  write_setpoint = λ a p w. record w { spot = λ b. if a == b then p else w.spot b };
  step_all = λ adapters dt w. w;
}

configured_other : (a b : ℕ) (w : World) → a ≢ b → (devices.configure b w).0.life a ≡ w.life a
configured_other a b w h =
    let other : (b == a) ≡ false = ground (arith, h) in
    elim (Bool-cases (b == 7)) [ inl e ↦ rw e refl | inr e ↦ rw (e, other) refl ]

made_inactive : (a : ℕ) (w : World) → (in_state a inactive w).life a ≡ inactive
made_inactive a w = let same : (a == a) ≡ true = ground arith in rw same refl

pub devices-IsLawful : IsLawful devices
devices-IsLawful = record {
  deactivate_inactive = λ a w done. made_inactive a w;
  make_frame = λ driver ctx a w. refl;
  configure_frame = λ a b w h. configured_other a b w h;
}

abbrev pub rail : AxisLimits Whole
rail = record {
  position_min = num 0;
  position_max = num 100;
  velocity_max = num 30;
  acceleration_max = num 10;
  jerk_max = num 0;
}

abbrev pub node : Text → ℕ → Node Whole ℕ
node id a = record {
  id = id;
  descriptor = record {
    id = id;
    driver = bytes "sim";
    limits = rail;
    command_rate_hz = num 1000;
    simulated = false;
    config = [];
  };
  adapter = a;
  governor = record {
    limits = rail;
    prev = num 0;
    position_clamps = 0;
    velocity_clamps = 0;
    rejected_setpoints = 0;
  };
}

abbrev pub world : World
world = record { life = λ a. active; spot = λ a. num 50; made = 7 }

abbrev pub cell : Cell Whole World ℕ
cell = record { world = world; nodes = node (bytes "x") 0 ∷ node (bytes "y") 1 ∷ [] }

abbrev pub direct : Controllers Whole World
direct = record {
  count = 0;
  command = λ i target state dt w. (target.position, w);
  reset = λ i x w. w;
}

abbrev pub spec_of : Text → CellNodeSpec Whole
spec_of id = record {
  id = id;
  joint = id;
  actuator = id;
  unit = bytes "mm";
  units_per_m = num 10;
  limits = rail;
}

abbrev pub arm : RobotSpec
arm = record {
  id = bytes "arm";
  carrier = bytes "x" ∷ [];
  joints = bytes "y" ∷ [];
  tcp_site = bytes "tcp";
}

abbrev pub described : CellDescriptor Whole
described = record {
  world = bytes "line.xml";
  nodes = spec_of (bytes "x") ∷ spec_of (bytes "y") ∷ [];
  stations = [];
  robots = arm ∷ [];
  motions = [];
  families = record { id = bytes "physics"; driver = bytes "sim" } ∷ [];
}

-- ===== src/Gateway/VerbsTests.antt =====
-- The theorems on the verbs of a gateway, with one capability whose programs are numbers.
use robonode.Prelude.{ℕ, ◌≡◌, refl, true, some, [], ◌∷◌, Text, bytes, text_eq, map, arith}
use robonode.Core.Map.{find, assign}
use robonode.Core.Result.{ok}
use robonode.Core.Double.Whole.{Whole, whole}
use robonode.Core.Geometry.{Maths}
use robonode.Motion.ModuleRegistry.{Factory, has, add}
use robonode.Gateway.Capability.{
  now, Capability, select, install, installed, rebuild, remember, version_after,
}
use robonode.Gateway.CommandBus
use robonode.Gateway.CommandBus.{Entry, CommandBus, submit}
use robonode.Gateway.Verbs.{
  Fields, Built, Offers, builds, selects, installs, keyed, needs, among, define_in, build_driver,
  build_set_version, build_define, register_verbs, perform, perform_all,
}
use robonode.Gateway.Verbs.Keys.{subject, register_verbs-keys}
use robonode.Gateway.Verbs.Overtaken.{set_version-overtaken}

instance abbrev plain_maths : Maths Whole
plain_maths = record { sqrt = λ x. x; atan2 = λ x y. x; acos = λ x. x; sin = λ x. x }

-- The arguments of a verb with one text.
abbrev one_text : Fields Text Whole
one_text = record {
  text_at = λ name default a. a;
  number_at = λ name default a. default;
  flag_at = λ name default a. default;
  has_at = λ name a. true;
  program_at = λ a. [];
}

abbrev offers : Offers ℕ Text
offers = record {
  motions = [];
  families = bytes "physics" ∷ bytes "dry" ∷ [];
  kinematics = true;
  capabilities = (bytes "control", λ source. ok 7) ∷ [];
}

abbrev to_physics : Built Whole ℕ
to_physics = keyed (bytes "driver") (builds (bytes "physics"))

abbrev to_dry : Built Whole ℕ
to_dry = keyed (bytes "driver") (builds (bytes "dry"))

register_verbs-keys_example :
    (to_physics.key ≡ to_dry.key → subject to_physics.run ≡ subject to_dry.run)
    × (subject to_physics.run ≡ subject to_dry.run → to_physics.key ≡ to_dry.key)
unfolding register_verbs find build_driver keyed needs among text_eq
register_verbs-keys_example =
    register_verbs-keys one_text offers offers (bytes "driver") (bytes "driver")
      (λ a. build_driver offers a) (λ a. build_driver offers a) (bytes "physics") (bytes "dry")
      to_physics to_dry refl refl refl refl

abbrev number_of : ℕ → Factory ℕ ℕ
number_of = λ n ctx. some n

abbrev control : Capability ℕ ℕ
control = record {
  registry = (bytes "direct", number_of 1) ∷ (bytes "smooth", number_of 2) ∷ [];
  version = bytes "direct";
  current = some 1;
  versions = [];
}

abbrev idle : CommandBus (Built Whole ℕ)
idle = CommandBus.init 4

abbrev to_smooth : Built Whole ℕ
to_smooth = keyed (bytes "set_version:control") (selects (bytes "control") (bytes "smooth"))

abbrev defines_mine : Built Whole ℕ
defines_mine = record {
  key = [];
  version = bytes "user.mine";
  run = installs (bytes "control") (bytes "user.mine") 7 now;
}

abbrev to_direct : Built Whole ℕ
to_direct = keyed (bytes "set_version:control") (selects (bytes "control") (bytes "direct"))

set_version-overtaken_example :
    let (waiting, ack) =
      submit
        (submit (submit idle to_smooth to_smooth.key).0 defines_mine defines_mine.key).0
        to_direct
        to_direct.key in
    let runs = map (λ (e : Entry (Built Whole ℕ)). e.item.run) waiting.queue in
    (ack.accepted ≡ true)
    × ((perform_all number_of 0 (bytes "control") runs control).version ≡ bytes "user.mine")
    × ((perform_all number_of 0
          (bytes "control")
          (to_smooth.run ∷ defines_mine.run ∷ to_direct.run ∷ [])
          control).version
        ≡ bytes "direct")
unfolding build_set_version build_define define_in needs keyed perform_all perform select install
    installed rebuild remember version_after has add assign find text_eq CommandBus.init
set_version-overtaken_example =
    set_version-overtaken number_of 0 offers (bytes "control") (bytes "smooth") (bytes "direct")
      (bytes "mine") (bytes "x") idle control to_smooth defines_mine to_direct refl refl refl refl
      (omega arith) refl

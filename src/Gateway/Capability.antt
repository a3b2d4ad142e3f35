-- ===== src/Gateway/Capability.antt =====
-- gateway/capability.hpp, and the versions of a capability as gateway/trajectory_capability.hpp and
-- tracking_capability.hpp keep them: which are registered, and which is in force. What a version is
-- built from, `ctx`, stays as it is. The view of a capability in JSON is left out.
pub mod Live
use robonode.Prelude.{
  Bool, true, false, if◌then◌else◌, Option, none, some, List, [], ◌∷◌, Text, bytes,
}
use robonode.Core.Map.{Map, find, assign}
use robonode.Core.Result.{Result, ok, err, ◌>>=◌, Status, success}
use robonode.Motion.ModuleRegistry.{Factory, add, has}

pub record VersionInfo : Type 0 where
  pub id : Text
  pub origin : Text
  pub source_hash : Text

pub data Select : Type 0 where
  now later : Select

pub data CapabilityError : Type 0 where
  unknown : Text → CapabilityError

-- `if (select == Select::kNow) version_ = id;`
unfoldable pub version_after : Select → Text → Text → Text
version_after now id version = id
version_after later id version = version

-- `registry_`, `version_`, the version in force, which may be null, and `versions_`.
pub record Capability {ℓ κ} (T : Type ℓ) (C : Type κ) : Type (ℓ ⊔ κ) where
  pub registry : Map (Factory T C)
  pub version : Text
  pub current : Option T
  pub versions : Map VersionInfo

module _ {ℓ κ} {T : Type ℓ} {C : Type κ} where
  -- `registry_.make(version_, ctx, planner_)`: a version that is not registered leaves what was
  -- there.
  unfoldable pub made_into : C → Option T → Option (Factory T C) → Option T
  made_into ctx old none = old
  made_into ctx old (some factory) = factory ctx

  unfoldable pub rebuild : C → Capability T C → Capability T C
  unfolding made_into find
  rebuild ctx c = record c { current = made_into ctx c.current (find c.version c.registry) }

  unfoldable pub remember : VersionInfo → Capability T C → Capability T C
  unfolding assign
  remember info c = record c { versions = assign info.id info c.versions }

  unfoldable pub select : C → Text → Capability T C → Capability T C × Status CapabilityError
  unfolding rebuild has
  select ctx version c =
      if has version c.registry
      then (rebuild ctx (record c { version = version }), success)
      else (c, err (unknown version))

  -- `install` up to the rebuilding, with the factory of the user's program.
  unfoldable pub installed : Text → Factory T C → Select → Capability T C → Capability T C
  unfolding remember add version_after
  installed id factory sel c =
      remember (record { id = id; origin = bytes "user"; source_hash = [] })
        (record c {
          registry = add id factory c.registry;
          version = version_after sel id c.version;
        })

  unfoldable pub install : C → Text → Factory T C → Select → Capability T C → Capability T C
  unfolding rebuild installed
  install ctx id factory sel c = rebuild ctx (installed id factory sel c)

-- A request to a capability.
pub data Change {ℓ κ} (T : Type ℓ) (C : Type κ) : Type (ℓ ⊔ κ) where
  selects : Text → Change T C
  installs : Text → Factory T C → Select → Change T C

module _ {ℓ κ} {T : Type ℓ} {C : Type κ} where
  unfoldable pub change : C → Change T C → Capability T C → Capability T C
  unfolding select install
  change ctx (selects version) c = (select ctx version c).0
  change ctx (installs id factory sel) c = install ctx id factory sel c

  unfoldable pub change_all : C → List (Change T C) → Capability T C → Capability T C
  unfolding change
  change_all ctx [] c = c
  change_all ctx (q ∷ qs) c = change_all ctx qs (change ctx q c)

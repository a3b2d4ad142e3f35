-- ===== src/Motion/ModuleRegistry.antt =====
-- motion/module_registry.hpp: the versions of a capability, each with a factory.
use robonode.Prelude.{Bool, Option, none, some, List, [], ◌∷◌, Text}
use robonode.Core.Map.{Map, find, contains, assign, keys}
use robonode.Core.Result.{Result, ok, err}

pub data RegistryError : Type 0 where
  unknown_version returned_null : Text → RegistryError

-- `ModuleRegistry`: a factory may return null.
abbrev pub Factory {ℓ κ} : Type ℓ → Type κ → Type (ℓ ⊔ κ)
Factory T C = C → Option T

-- `out = it->second(ctx); if (!out) …`
unfoldable pub built {ℓ} : {T : Type ℓ} → Text → Option T → Result RegistryError T
built name none = err (returned_null name)
built name (some t) = ok t

module _ {ℓ κ} {T : Type ℓ} {C : Type κ} where
  unfoldable pub add : Text → Factory T C → Map (Factory T C) → Map (Factory T C)
  unfolding assign
  add name factory factories = assign name factory factories

  unfoldable pub has : Text → Map (Factory T C) → Bool
  unfolding contains
  has name factories = contains name factories

  unfoldable pub names : Map (Factory T C) → List Text
  unfolding keys
  names factories = keys factories

  unfoldable pub make_with : Text → C → Option (Factory T C) → Result RegistryError T
  unfolding built
  make_with name ctx none = err (unknown_version name)
  make_with name ctx (some factory) = built name (factory ctx)

  unfoldable pub make : Text → C → Map (Factory T C) → Result RegistryError T
  unfolding make_with find
  make name ctx factories = make_with name ctx (find name factories)

  -- The registrations of an owner, in their order.
  unfoldable pub add_all : List (Text × Factory T C) → Map (Factory T C) → Map (Factory T C)
  unfolding add
  add_all [] factories = factories
  add_all ((name, factory) ∷ rest) factories = add_all rest (add name factory factories)

-- ===== src/Shared.antt =====
-- include/map.h: class Map, a `std::map` whose operations each hold its mutex, so that they are steps
-- one after the other. `none_value` is what `operator[]` creates, and `eq` compares two values.
pub mod Refines
use modbus_ssa_project.Prelude.{ℕ, Bool, if◌then◌else◌, length}
use modbus_ssa_project.Prelude.Map
use modbus_ssa_project.Prelude.Map.{Key}

module _ {ℓ κ} {K : Type ℓ} {V : Type κ} ⦃key : Key K⦄ (none_value : V) (eq : V → V → Bool) where
  -- insert: an entry that is there stays.
  unfoldable pub insert : K → V → Map.Map K V → Map.Map K V
  insert k v m = Map.insert k v m

  -- erase(key)
  unfoldable pub erase : K → Map.Map K V → Map.Map K V
  erase k m = Map.erase k m

  -- operator[], with the map that it leaves.
  unfoldable pub index : K → Map.Map K V → V × Map.Map K V
  index k m = (Map.get none_value k m, Map.modify none_value k (λ v. v) m)

  -- erase(key, value)
  unfoldable pub erase_value : K → V → Map.Map K V → Map.Map K V
  unfolding index erase
  erase_value k value m =
      let (v, found) = index k m in if eq v value then Map.erase k found else found

  -- size
  unfoldable pub size : Map.Map K V → ℕ
  size m = length m

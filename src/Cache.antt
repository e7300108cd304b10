-- ===== src/Cache.antt =====
-- `SimpleCache` of src/utils.rs: a map of bounded size behind a lock. Each operation holds the lock
-- from its first access to its last, so it is one step from a cache to the next.
pub mod Laws
mod Tests
use sxn_spv.Common.{ℕ, Option, none, some, List, [], ◌∷◌, length, leb, if◌then◌else◌}
use sxn_spv.Common.Order.{Ord}
use sxn_spv.Common.BTreeMap
use sxn_spv.Common.BTreeMap.{BTreeMap}

pub record SimpleCache {ℓ κ} (K : Type ℓ) (V : Type κ) : Type (ℓ ⊔ κ) where
  pub map : BTreeMap K V
  pub size : ℕ

abbrev pub new {ℓ κ} : {K : Type ℓ} {V : Type κ} → ℕ → SimpleCache K V
new size = record { map = []; size = size }

-- `map.clone().into_iter().next()`, the entry that the source calls the oldest.
abbrev pub first_key {ℓ κ} : {K : Type ℓ} {V : Type κ} → BTreeMap K V → Option K
first_key [] = none
first_key ((k, v) ∷ m) = some k

module _ {ℓ κ} {K : Type ℓ} {V : Type κ} ⦃o : Ord K⦄ where
  remove_first : BTreeMap K V → BTreeMap K V
  remove_first m = elim (first_key m) [ none ↦ m | some oldest_key ↦ BTreeMap.remove oldest_key m ]

  unfoldable pub insert : SimpleCache K V → K → V → SimpleCache K V
  unfolding remove_first
  insert c key value =
      let kept = if leb c.size (length c.map) then remove_first c.map else c.map in
      record c { map = BTreeMap.insert key value kept }

  unfoldable pub get : SimpleCache K V → K → Option V
  get c key = BTreeMap.get key c.map

  unfoldable pub write : SimpleCache K V → K → V → SimpleCache K V
  write c key new_value = elim (BTreeMap.get key c.map) [
    | none ↦ c
    | some _ ↦ record c { map = BTreeMap.insert key new_value c.map }
  ]

  unfoldable pub remove : SimpleCache K V → K → SimpleCache K V
  remove c key = record c { map = BTreeMap.remove key c.map }

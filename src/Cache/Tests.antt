-- ===== src/Cache/Tests.antt =====
-- The cache at size 2.
use sxn_spv.Common.{ℕ, ◌≡◌, refl, [], ◌∷◌, arith}
use sxn_spv.Common.Order.{nat_ord}
use sxn_spv.Common.BTreeMap
use sxn_spv.Cache.{SimpleCache, insert, get, write, remove}
use sxn_spv.Cache.Laws.{IsValid}

abbrev full : SimpleCache ℕ ℕ
full = record { map = (3, 30) ∷ (5, 50) ∷ []; size = 2 }

full-IsValid : IsValid full
full-IsValid = record { sorted = ((refl, tt), (tt, tt)); bounded = omega arith }

program : Unit {0}
unfolding insert get write remove BTreeMap.get BTreeMap.insert BTreeMap.remove
program = tt

-- A full cache gives up an entry even where the key is there already.
insert-present : insert full 5 51 ≡ record { map = (5, 51) ∷ []; size = 2 }
unfolding program
insert-present = refl

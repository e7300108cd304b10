-- ===== src/Common/BTreeMap.antt =====
-- `BTreeMap<K, V>` as an association list in the order of the keys.
use sxn_spv.Common.Tests.{if◌then◌else◌}
use sxn_spv.Common.Lists.{length}
use sxn_spv.Common.Order.{Ord}
use Prim.Native.Nat.{suc, ◌≤◌}
use mathlib.Core.Path.{◌≡◌, refl}
use mathlib.Core.Bool.{true}
use mathlib.Core.Option.{Option, none, some}
use mathlib.Core.List.{List, [], ◌∷◌}
use native.Mathlib.Omega.{arith}

abbrev pub BTreeMap {ℓ κ} : Type ℓ → Type κ → Type (ℓ ⊔ κ)
BTreeMap K V = List (K × V)

module _ {ℓ κ} {K : Type ℓ} {V : Type κ} ⦃o : Ord K⦄ where
  unfoldable pub get : K → BTreeMap K V → Option V
  get k [] = none
  get k ((j, v) ∷ m) = if o.eq j k then some v else get k m

  unfoldable pub insert : K → V → BTreeMap K V → BTreeMap K V
  insert k v [] = (k, v) ∷ []
  insert k v ((j, w) ∷ m) =
      if o.eq j k
      then (j, v) ∷ m
      else if o.lt k j
      then (k, v) ∷ (j, w) ∷ m
      else (j, w) ∷ insert k v m

  unfoldable pub remove : K → BTreeMap K V → BTreeMap K V
  remove k [] = []
  remove k ((j, w) ∷ m) = if o.eq j k then m else (j, w) ∷ remove k m

  -- Every key is above `k`.
  abbrev pub Above : K → BTreeMap K V → Type 0
  Above k [] = Unit
  Above k ((j, v) ∷ m) = (o.lt k j ≡ true) × Above k m

  abbrev pub IsSorted : BTreeMap K V → Type 0
  IsSorted [] = Unit
  IsSorted ((j, v) ∷ m) = Above j m × IsSorted m

  pub Above-trans : (k j : K) (m : BTreeMap K V) → o.lt k j ≡ true → Above j m → Above k m
  Above-trans k j [] h a = tt
  Above-trans k j ((i, v) ∷ m) h a = (o.lt_trans k j i h a.0, Above-trans k j m h a.1)

  pub get-Above : (k : K) (m : BTreeMap K V) → Above k m → get k m ≡ none
  unfolding get
  get-Above k [] a = refl
  get-Above k ((i, v) ∷ m) a = ground (arith, o.eq_iff i k, o.lt_irrefl k, get-Above k m a.1)

  insert-Above :
      (k j : K) (v : V) (m : BTreeMap K V) → o.lt k j ≡ true → Above k m → Above k (insert j v m)
  unfolding insert
  insert-Above k j v [] h a = (h, tt)
  insert-Above k j v ((i, w) ∷ m) h a = ground (arith, insert-Above k j v m h a.1)

  pub insert-IsSorted : (k : K) (v : V) (m : BTreeMap K V) → IsSorted m → IsSorted (insert k v m)
  unfolding insert
  insert-IsSorted k v [] s = (tt, tt)
  insert-IsSorted k v ((j, w) ∷ m) s = ground (
    arith,
    o.eq_iff j k,
    o.eq_iff k j,
    Above-trans k j m,
    o.lt_total k j,
    insert-Above j k v m,
    insert-IsSorted k v m s.1,
  )

  pub get-insert :
      (k q : K) (v : V) (m : BTreeMap K V)
      → get q (insert k v m) ≡ (if o.eq k q then some v else get q m)
  unfolding get insert
  get-insert k q v [] = refl
  get-insert k q v ((j, w) ∷ m) =
      ground (arith, o.eq_iff j k, o.eq_iff j q, o.eq_iff k q, get-insert k q v m)

  pub length-insert-le : (k : K) (v : V) (m : BTreeMap K V) → length (insert k v m) ≤ suc (length m)
  unfolding insert
  length-insert-le k v [] = omega arith
  length-insert-le k v ((j, w) ∷ m) = ground (arith, length-insert-le k v m)

  remove-Above : (k j : K) (m : BTreeMap K V) → Above k m → Above k (remove j m)
  unfolding remove
  remove-Above k j [] a = tt
  remove-Above k j ((i, w) ∷ m) a = ground (arith, remove-Above k j m a.1)

  pub remove-IsSorted : (k : K) (m : BTreeMap K V) → IsSorted m → IsSorted (remove k m)
  unfolding remove
  remove-IsSorted k [] s = tt
  remove-IsSorted k ((j, w) ∷ m) s = ground (arith, remove-Above j k m s.0, remove-IsSorted k m s.1)

  pub get-remove :
      (k q : K) (m : BTreeMap K V)
      → IsSorted m
      → get q (remove k m) ≡ (if o.eq k q then none else get q m)
  unfolding get remove
  get-remove k q [] s = ground arith
  get-remove k q ((j, w) ∷ m) s =
      ground
        (arith, o.eq_iff j k, o.eq_iff j q, o.eq_iff k q, get-Above j m s.0, get-remove k q m s.1)

  pub length-remove-le : (k : K) (m : BTreeMap K V) → length (remove k m) ≤ length m
  unfolding remove
  length-remove-le k [] = omega arith
  length-remove-le k ((j, w) ∷ m) = ground (arith, length-remove-le k m)

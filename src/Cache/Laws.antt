-- ===== src/Cache/Laws.antt =====
-- `SimpleCache`: the invariant, what can be read after each operation, and which entry an insertion
-- into a full cache gives up.
use Prim.Native.Nat.{max}
use sxn_spv.Common.{
  suc, ◌+◌, ◌≤◌, ◌≡◌, ◌≢◌, refl, inl, inr, Bool-cases, true, false, Bool, Option, none, some, [],
  ◌∷◌, length, leb, if◌then◌else◌, arith,
}
use sxn_spv.Common.Order.{Ord}
use sxn_spv.Common.BTreeMap
use sxn_spv.Common.BTreeMap.{
  BTreeMap, IsSorted, Above, insert-IsSorted, remove-IsSorted, get-insert, get-remove, get-Above,
  length-insert-le, length-remove-le,
}
use sxn_spv.Cache.{SimpleCache, first_key, remove_first, insert, get, write, remove}

module _ {ℓ κ} {K : Type ℓ} {V : Type κ} ⦃o : Ord K⦄ where
  -- The keys are in order, and there are no more entries than the size, or one at size 0.
  pub record IsValid (c : SimpleCache K V) : Type (ℓ ⊔ κ) where
    pub sorted : IsSorted c.map
    pub bounded : length c.map ≤ max 1 c.size

  -- The key that an insertion gives up: the smallest, if the cache is full.
  abbrev pub victim : SimpleCache K V → Option K
  victim c = if leb c.size (length c.map) then first_key c.map else none

  abbrev is_victim : SimpleCache K V → K → Bool
  is_victim c q = elim (victim c) [ none ↦ false | some j ↦ o.eq j q ]

  remove_first_lem : (m : BTreeMap K V) → IsSorted m → IsSorted (remove_first m)
  unfolding remove_first
  remove_first_lem [] s = tt
  remove_first_lem ((j, w) ∷ m) s = remove-IsSorted j ((j, w) ∷ m) s

  length-remove_first : (m : BTreeMap K V) → length (remove_first m) + 1 ≤ max 1 (length m)
  unfolding remove_first BTreeMap.remove
  length-remove_first [] = omega arith
  length-remove_first ((j, w) ∷ m) = ground (arith, (o.eq_iff j j).1 refl)

  get-remove_first :
      (q : K) (m : BTreeMap K V)
      → IsSorted m
      → BTreeMap.get q (remove_first m) ≡ (
          if elim (first_key m) [ none ↦ false | some j ↦ o.eq j q ]
          then none
          else BTreeMap.get q m)
  unfolding remove_first
  get-remove_first q [] s = refl
  get-remove_first q ((j, w) ∷ m) s = get-remove j q ((j, w) ∷ m) s

  -- `insert` keeps the cache valid: in order, and within its size.
  pub insert-IsValid :
      (c : SimpleCache K V) (key : K) (value : V) → IsValid c → IsValid (insert c key value)
  unfolding insert
  insert-IsValid c key value v = elim (Bool-cases (leb c.size (length c.map))) [
    | inl full ↦
        rw (full, insert)
          (record {
            sorted =
                insert-IsSorted key value (remove_first c.map) (remove_first_lem c.map v.sorted);
            bounded = omega (
              arith,
              v.bounded,
              length-insert-le key value (remove_first c.map),
              length-remove_first c.map,
            );
          })
    | inr room ↦
        rw (room, insert)
          (record {
            sorted = insert-IsSorted key value c.map v.sorted;
            bounded = ground (arith, length-insert-le key value c.map);
          })
  ]

  -- After `insert` the key has the value, the key that was given up has none, and every other key
  -- reads as before.
  pub get-insert_cache :
      (c : SimpleCache K V) (key q : K) (value : V)
      → IsValid c
      → get (insert c key value) q
        ≡ (if o.eq key q then some value else if is_victim c q then none else get c q)
  unfolding insert get
  get-insert_cache c key q value v = ground (
    arith,
    get-insert key q value c.map,
    get-insert key q value (remove_first c.map),
    get-remove_first q c.map v.sorted,
  )

  -- What was just inserted is read.
  pub get-insert_self :
      (c : SimpleCache K V) (key : K) (value : V)
      → IsValid c
      → get (insert c key value) key ≡ some value
  get-insert_self c key value v =
      ground (arith, get-insert_cache c key key value v, (o.eq_iff key key).1 refl)

  -- `write` changes the value of a key that is there, and nothing else; it adds no key.
  pub get-write :
      (c : SimpleCache K V) (key q : K) (new_value : V)
      → get (write c key new_value) q
        ≡ elim (get c q) [ none ↦ none | some old ↦ some (if o.eq key q then new_value else old) ]
  unfolding get write
  get-write c key q new_value = ground (arith, get-insert key q new_value c.map, o.eq_iff key q)

  pub remove-IsValid : (c : SimpleCache K V) (key : K) → IsValid c → IsValid (remove c key)
  unfolding remove
  remove-IsValid c key v = record {
    sorted = remove-IsSorted key c.map v.sorted;
    bounded = omega (arith, v.bounded, length-remove-le key c.map);
  }

  -- After `remove` the key has no value, and every other key reads as before.
  pub get-remove_cache :
      (c : SimpleCache K V) (key q : K)
      → IsValid c
      → get (remove c key) q ≡ (if o.eq key q then none else get c q)
  unfolding get remove
  get-remove_cache c key q v = get-remove key q c.map v.sorted

  insert_smallest :
      (key : K) (value : V) (m : BTreeMap K V)
      → Above key m
      → first_key (BTreeMap.insert key value m) ≡ some key
  unfolding BTreeMap.insert
  insert_smallest key value [] a = refl
  insert_smallest key value ((j, w) ∷ m) a = ground (arith, o.eq_iff j key, o.lt_irrefl key)

  remove_first-Above : (k : K) (m : BTreeMap K V) → Above k m → Above k (remove_first m)
  unfolding remove_first BTreeMap.remove
  remove_first-Above k [] a = tt
  remove_first-Above k ((j, w) ∷ m) a = ground (arith, (o.eq_iff j j).1 refl)

  length-insert_smallest :
      (key : K) (value : V) (m : BTreeMap K V)
      → Above key m
      → length (BTreeMap.insert key value m) ≡ suc (length m)
  unfolding BTreeMap.insert
  length-insert_smallest key value [] a = refl
  length-insert_smallest key value ((j, w) ∷ m) a = ground (arith, o.eq_iff j key, o.lt_irrefl key)

  length-le-remove_first : (m : BTreeMap K V) → length m ≤ length (remove_first m) + 1
  unfolding remove_first BTreeMap.remove
  length-le-remove_first [] = omega arith
  length-le-remove_first ((j, w) ∷ m) = ground (arith, (o.eq_iff j j).1 refl)

  full_after_smallest :
      (c : SimpleCache K V) (key : K) (value : V)
      → c.size ≤ length c.map
      → Above key c.map
      → victim (insert c key value) ≡ some key
  unfolding insert
  full_after_smallest c key value full a =
      let before : leb c.size (length c.map) ≡ true = ground arith in
      let a' = remove_first-Above key c.map a in
      let longer = length-insert_smallest key value (remove_first c.map) a' in
      let after : leb c.size (length (BTreeMap.insert key value (remove_first c.map))) ≡ true =
        ground (arith, longer, length-le-remove_first c.map) in
      rw (before, insert, after) (insert_smallest key value (remove_first c.map) a')

  -- The entry that a full cache gives up is the smallest, not the oldest: an entry whose key is
  -- below all others is lost at the very next insertion of another key.
  pub insert_newest_lost :
      (c : SimpleCache K V) (key next : K) (value next_value : V)
      → IsValid c
      → c.size ≤ length c.map
      → Above key c.map
      → key ≢ next
      → (get (insert c key value) key ≡ some value)
        × (get (insert (insert c key value) next next_value) key ≡ none)
  insert_newest_lost c key next value next_value v full a other =
      let c' = insert c key value in
      let lost = full_after_smallest c key value full a in
      (
        ground (arith, get-insert_cache c key key value v, (o.eq_iff key key).1 refl),
        ground (
          arith,
          get-insert_cache c' next key next_value (insert-IsValid c key value v),
          o.eq_iff next key,
          (o.eq_iff key key).1 refl,
          lost,
        ),
      )

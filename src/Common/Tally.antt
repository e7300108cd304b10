-- ===== src/Common/Tally.antt =====
-- Counting with a map: `entry(k).and_modify(|counter| *counter += 1).or_insert(1)` over a sequence.
use sxn_spv.Common.Tests.{if◌then◌else◌, Option-cases}
use sxn_spv.Common.Lists.{All}
use sxn_spv.Common.Classes.{Eq}
use sxn_spv.Common.HashMap
use sxn_spv.Common.HashMap.{HashMap, get-insert, insert-UniqueKeys}
use Prim.Native.Nat.{ℕ, ◌+◌, ◌<◌}
use mathlib.Core.Path.{◌≡◌, refl}
use mathlib.Core.Logic.{◌↔◌, ◌⊎◌, inl, inr}
use mathlib.Core.Option.{Option, none, some}
use mathlib.Core.List.{List, [], ◌∷◌, ◌++◌}
use native.Mathlib.Omega.{arith}

-- The count under a key, 0 where there is no entry.
abbrev pub value : Option ℕ → ℕ
value none = 0
value (some n) = n

module _ {ℓ} {A : Type ℓ} ⦃e : Eq A⦄ where
  unfoldable pub bump : A → HashMap A ℕ → HashMap A ℕ
  bump a m = elim (HashMap.get a m) [
    | none ↦ HashMap.insert a 1 m
    | some n ↦ HashMap.insert a (n + 1) m
  ]

  unfoldable pub tally_into : HashMap A ℕ → List A → HashMap A ℕ
  tally_into m [] = m
  tally_into m (a ∷ as_) = tally_into (bump a m) as_

  abbrev pub tally : List A → HashMap A ℕ
  tally as_ = tally_into [] as_

  -- How often a value stands in a list.
  abbrev pub count : A → List A → ℕ
  count a [] = 0
  count a (x ∷ xs) = (if e.beq x a then 1 else 0) + count a xs

  -- No entry counts nothing.
  abbrev pub Positive : HashMap A ℕ → Type ℓ
  Positive m = (a : A) (n : ℕ) → HashMap.get a m ≡ some n → 0 < n

  get-bump :
      (a b : A) (m : HashMap A ℕ)
      → HashMap.get b (bump a m)
        ≡ (if e.beq a b then some (value (HashMap.get a m) + 1) else HashMap.get b m)
  unfolding bump
  get-bump a b m =
      ground (arith, get-insert a b 1 m, get-insert a b (value (HashMap.get a m) + 1) m)

  bump-Positive : (a : A) (m : HashMap A ℕ) → Positive m → Positive (bump a m)
  bump-Positive a m p b n h = ground (arith, get-bump a b m, p b n)

  bump-UniqueKeys : (a : A) (m : HashMap A ℕ) → HashMap.UniqueKeys m → HashMap.UniqueKeys (bump a m)
  unfolding bump
  bump-UniqueKeys a m u = elim (Option-cases (HashMap.get a m)) [
    | inl new ↦ rw (new, bump) (insert-UniqueKeys a 1 m u)
    | inr (n, old) ↦ rw (old, bump) (insert-UniqueKeys a (n + 1) m u)
  ]

  tally_into-Positive : (m : HashMap A ℕ) (xs : List A) → Positive m → Positive (tally_into m xs)
  unfolding tally_into
  tally_into-Positive m [] p = p
  tally_into-Positive m (x ∷ xs) p = tally_into-Positive (bump x m) xs (bump-Positive x m p)

  tally_into-UniqueKeys :
      (m : HashMap A ℕ) (xs : List A) → HashMap.UniqueKeys m → HashMap.UniqueKeys (tally_into m xs)
  unfolding tally_into
  tally_into-UniqueKeys m [] u = u
  tally_into-UniqueKeys m (x ∷ xs) u = tally_into-UniqueKeys (bump x m) xs (bump-UniqueKeys x m u)

  get-tally_into :
      (m : HashMap A ℕ) (xs : List A) (a : A)
      → value (HashMap.get a (tally_into m xs)) ≡ value (HashMap.get a m) + count a xs
  unfolding tally_into
  get-tally_into m [] a = omega arith
  get-tally_into m (x ∷ xs) a =
      ground (arith, get-tally_into (bump x m) xs a, get-bump x a m, e.beq_iff x a)

  get-none : (a : A) → HashMap.get {V = ℕ} a [] ≡ none
  unfolding HashMap.get
  get-none a = refl

  pub tally-UniqueKeys : (xs : List A) → HashMap.UniqueKeys (tally xs)
  tally-UniqueKeys xs = tally_into-UniqueKeys [] xs tt

  -- The tally of a list holds each of its values with the number of times that it occurs.
  pub get-tally :
      (xs : List A) (a : A) (n : ℕ)
      → (HashMap.get a (tally xs) ≡ some n) ↔ ((count a xs ≡ n) × (0 < n))
  get-tally xs a n =
      let total = get-tally_into [] xs a in
      let empty = get-none a in
      (
        λ h. (
          ground (arith, total, empty),
          tally_into-Positive [] xs (λ b k g. ground (arith, get-none b)) a n h,
        ),
        λ (h, pos). ground (arith, total, empty),
      )

  module _ {κ} (P : A → Type κ) where
    abbrev pub Keys : HashMap A ℕ → Type κ
    Keys = All (λ x. P x.0)

    insert-Keys : (a : A) (n : ℕ) (m : HashMap A ℕ) → P a → Keys m → Keys (HashMap.insert a n m)
    unfolding HashMap.insert
    insert-Keys a n [] pa k = (pa, tt)
    insert-Keys a n ((j, w) ∷ m) pa k = ground (arith, insert-Keys a n m pa k.1)

    bump-Keys : (a : A) (m : HashMap A ℕ) → P a → Keys m → Keys (bump a m)
    unfolding bump
    bump-Keys a m pa k = elim (Option-cases (HashMap.get a m)) [
      | inl new ↦ rw (new, bump) (insert-Keys a 1 m pa k)
      | inr (n, old) ↦ rw (old, bump) (insert-Keys a (n + 1) m pa k)
    ]

    -- A predicate of every counted value is one of every key of the tally.
    pub tally_into-Keys :
        (m : HashMap A ℕ) (xs : List A) → All P xs → Keys m → Keys (tally_into m xs)
    unfolding tally_into
    tally_into-Keys m [] a k = k
    tally_into-Keys m (x ∷ xs) a k = tally_into-Keys (bump x m) xs a.1 (bump-Keys x m a.0 k)

  pub count-append : (a : A) (xs ys : List A) → count a (xs ++ ys) ≡ count a xs + count a ys
  count-append a [] ys = omega arith
  count-append a (x ∷ xs) ys = omega (arith, count-append a xs ys)

  pub count-cases : (a : A) (xs : List A) → (count a xs ≡ 0) ⊎ (0 < count a xs)
  count-cases a xs = grind arith

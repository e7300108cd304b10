-- ===== src/Common/Sorting.antt =====
-- `sort_unstable` on numbers, and the rank of an element of a sorted list.
use sxn_spv.Common.Tests.{ltb, leb, if◌then◌else◌}
use sxn_spv.Common.Lists.{length, get_elem?}
use Prim.Native.Nat.{ℕ, zero, suc, ◌+◌, ◌≤◌, ◌<◌}
use mathlib.Core.Path.{◌≡◌, refl}
use mathlib.Core.Bool.{Bool}
use mathlib.Core.Option.{some}
use mathlib.Core.List.{List, [], ◌∷◌}
use native.Mathlib.Omega.{arith}

unfoldable pub insert_sorted : ℕ → List ℕ → List ℕ
insert_sorted x [] = x ∷ []
insert_sorted x (y ∷ ys) = if leb x y then x ∷ y ∷ ys else y ∷ insert_sorted x ys

unfoldable pub sort : List ℕ → List ℕ
unfolding insert_sorted
sort [] = []
sort (x ∷ xs) = insert_sorted x (sort xs)

-- How many elements pass a test.
abbrev pub count_if {ℓ} : {A : Type ℓ} → (A → Bool) → List A → ℕ
count_if p [] = 0
count_if p (x ∷ xs) = (if p x then 1 else 0) + count_if p xs

abbrev AtLeast : ℕ → List ℕ → Type 0
AtLeast x [] = Unit
AtLeast x (y ∷ ys) = (x ≤ y) × AtLeast x ys

abbrev pub IsSorted : List ℕ → Type 0
IsSorted [] = Unit
IsSorted (x ∷ xs) = AtLeast x xs × IsSorted xs

AtLeast-mono : (x y : ℕ) (xs : List ℕ) → x ≤ y → AtLeast y xs → AtLeast x xs
AtLeast-mono x y [] h a = tt
AtLeast-mono x y (z ∷ zs) h a = (omega arith, AtLeast-mono x y zs h a.1)

insert_sorted-AtLeast :
    (x y : ℕ) (ys : List ℕ) → x ≤ y → AtLeast x ys → AtLeast x (insert_sorted y ys)
unfolding insert_sorted
insert_sorted-AtLeast x y [] h a = (h, tt)
insert_sorted-AtLeast x y (z ∷ zs) h a = ground (arith, insert_sorted-AtLeast x y zs h a.1)

insert_sorted-IsSorted : (x : ℕ) (ys : List ℕ) → IsSorted ys → IsSorted (insert_sorted x ys)
unfolding insert_sorted
insert_sorted-IsSorted x [] s = (tt, tt)
insert_sorted-IsSorted x (y ∷ ys) s =
    ground
      (arith, AtLeast-mono x y ys, insert_sorted-AtLeast y x ys, insert_sorted-IsSorted x ys s.1)

pub sort-IsSorted : (xs : List ℕ) → IsSorted (sort xs)
unfolding sort
sort-IsSorted [] = tt
sort-IsSorted (x ∷ xs) = insert_sorted-IsSorted x (sort xs) (sort-IsSorted xs)

count_if-insert_sorted :
    (p : ℕ → Bool) (x : ℕ) (xs : List ℕ) → count_if p (insert_sorted x xs) ≡ count_if p (x ∷ xs)
unfolding insert_sorted
count_if-insert_sorted p x [] = refl
count_if-insert_sorted p x (y ∷ ys) = ground (arith, count_if-insert_sorted p x ys)

-- Sorting keeps every count.
pub count_if-sort : (p : ℕ → Bool) (xs : List ℕ) → count_if p (sort xs) ≡ count_if p xs
unfolding sort
count_if-sort p [] = refl
count_if-sort p (x ∷ xs) = omega (arith, count_if-insert_sorted p x (sort xs), count_if-sort p xs)

pub length-sort : (xs : List ℕ) → length (sort xs) ≡ length xs
unfolding sort
length-sort [] = refl
length-sort (x ∷ xs) = omega (arith, length-insert_sorted x (sort xs), length-sort xs)
  where
    length-insert_sorted : (y : ℕ) (ys : List ℕ) → length (insert_sorted y ys) ≡ suc (length ys)
    length-insert_sorted y [] = refl
    length-insert_sorted y (z ∷ zs) = ground (arith, length-insert_sorted y zs)

none_below : (x : ℕ) (xs : List ℕ) → AtLeast x xs → count_if (λ y. ltb y x) xs ≡ 0
none_below x [] a = refl
none_below x (y ∷ ys) a = ground (arith, none_below x ys a.1)

AtLeast-at : (x k t : ℕ) (xs : List ℕ) → AtLeast x xs → get_elem? xs k ≡ some t → x ≤ t
AtLeast-at x k t [] a at = ground arith
AtLeast-at x zero t (y ∷ ys) a at = ground arith
AtLeast-at x (suc k) t (y ∷ ys) a at = AtLeast-at x k t ys a.1 at

-- In a sorted list at most `k` elements are below the one at index `k`, and more than `k` are not
-- above it.
pub rank :
    (k t : ℕ) (xs : List ℕ)
    → IsSorted xs
    → get_elem? xs k ≡ some t
    → (count_if (λ y. ltb y t) xs ≤ k) × (k < count_if (λ y. leb y t) xs)
rank k t [] s at = ground arith
rank zero t (x ∷ xs) s at = ground (arith, none_below x xs s.0)
rank (suc k) t (x ∷ xs) s at = ground (arith, AtLeast-at x k t xs s.0 at, rank k t xs s.1 at)

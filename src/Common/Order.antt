-- ===== src/Common/Order.antt =====
-- Keys with a total order (`Ord`): the interface, numbers, and byte strings in lexicographic order.
use sxn_spv.Common.Tests.{ltb, ◌==◌, ==_iff}
use Prim.Native.Nat.{ℕ}
use mathlib.Core.Path.{◌≡◌, refl}
use mathlib.Core.Logic.{◌↔◌}
use mathlib.Core.Bool.{Bool, true, false, ◌&&◌, ◌||◌}
use mathlib.Core.List.{List, [], ◌∷◌}
use native.Mathlib.Omega.{arith}

pub record Ord {ℓ} (A : Type ℓ) : Type ℓ where
  pub eq : A → A → Bool
  pub lt : A → A → Bool
  pub eq_iff : (a b : A) → (eq a b ≡ true) ↔ (a ≡ b)
  pub lt_irrefl : (a : A) → lt a a ≡ false
  pub lt_trans : (a b c : A) → lt a b ≡ true → lt b c ≡ true → lt a c ≡ true
  pub lt_total : (a b : A) → lt a b ≡ false → eq a b ≡ false → lt b a ≡ true

pub nat-lt_irrefl : (a : ℕ) → ltb a a ≡ false
nat-lt_irrefl a = ground arith

pub nat-lt_trans : (a b c : ℕ) → ltb a b ≡ true → ltb b c ≡ true → ltb a c ≡ true
nat-lt_trans a b c p q = ground arith

pub nat-lt_total : (a b : ℕ) → ltb a b ≡ false → (a == b) ≡ false → ltb b a ≡ true
nat-lt_total a b p q = ground arith

instance abbrev pub nat_ord : Ord ℕ
nat_ord = record {
  eq = ◌==◌;
  lt = ltb;
  eq_iff = ==_iff;
  lt_irrefl = nat-lt_irrefl;
  lt_trans = nat-lt_trans;
  lt_total = nat-lt_total;
}

-- `Vec<u8>`
abbrev pub bytes_eq : List ℕ → List ℕ → Bool
bytes_eq [] [] = true
bytes_eq (x ∷ xs) (y ∷ ys) = (x == y) && bytes_eq xs ys
bytes_eq _ _ = false

abbrev pub bytes_lt : List ℕ → List ℕ → Bool
bytes_lt [] [] = false
bytes_lt [] (y ∷ ys) = true
bytes_lt (x ∷ xs) [] = false
bytes_lt (x ∷ xs) (y ∷ ys) = ltb x y || ((x == y) && bytes_lt xs ys)

pub bytes-eq_iff : (xs ys : List ℕ) → (bytes_eq xs ys ≡ true) ↔ (xs ≡ ys)
bytes-eq_iff [] [] = ground arith
bytes-eq_iff [] (y ∷ ys) = ground arith
bytes-eq_iff (x ∷ xs) [] = ground arith
bytes-eq_iff (x ∷ xs) (y ∷ ys) = ground (arith, bytes-eq_iff xs ys)

pub bytes-lt_irrefl : (xs : List ℕ) → bytes_lt xs xs ≡ false
bytes-lt_irrefl [] = refl
bytes-lt_irrefl (x ∷ xs) = ground (arith, bytes-lt_irrefl xs)

pub bytes-lt_trans :
    (xs ys zs : List ℕ) → bytes_lt xs ys ≡ true → bytes_lt ys zs ≡ true → bytes_lt xs zs ≡ true
bytes-lt_trans [] [] zs p q = ground arith
bytes-lt_trans [] (y ∷ ys) [] p q = ground arith
bytes-lt_trans [] (y ∷ ys) (z ∷ zs) p q = refl
bytes-lt_trans (x ∷ xs) [] zs p q = ground arith
bytes-lt_trans (x ∷ xs) (y ∷ ys) [] p q = ground arith
bytes-lt_trans (x ∷ xs) (y ∷ ys) (z ∷ zs) p q = ground (arith, bytes-lt_trans xs ys zs)

pub bytes-lt_total :
    (xs ys : List ℕ) → bytes_lt xs ys ≡ false → bytes_eq xs ys ≡ false → bytes_lt ys xs ≡ true
bytes-lt_total [] [] p q = ground arith
bytes-lt_total [] (y ∷ ys) p q = ground arith
bytes-lt_total (x ∷ xs) [] p q = refl
bytes-lt_total (x ∷ xs) (y ∷ ys) p q = ground (arith, bytes-lt_total xs ys)

instance abbrev pub bytes_ord : Ord (List ℕ)
bytes_ord = record {
  eq = bytes_eq;
  lt = bytes_lt;
  eq_iff = bytes-eq_iff;
  lt_irrefl = bytes-lt_irrefl;
  lt_trans = bytes-lt_trans;
  lt_total = bytes-lt_total;
}

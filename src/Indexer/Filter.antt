-- ===== src/Indexer/Filter.antt =====
-- Which of the ordered headers are left to add, and whose hashes the set holds after them.
use sxn_spv.Common.{
  ℕ, zero, suc, ◌+◌, ◌≡◌, ◌⊎◌, inl, inr, refl, sym, Bool, true, some, List, [], ◌∷◌, ◌++◌,
  get_elem?, keep, ◌==◌, ==_iff, Bool-cases, All, arith,
}
use mathlib.Core.Path.{subst}
use sxn_spv.Bitcoin.{Bitcoin, BlockHash}
use sxn_spv.Header.{HeaderEntry, number_from}
use sxn_spv.Header.Order.{hashed}
use sxn_spv.Indexer.{holds, hashes_of}
use sxn_spv.Indexer.Chains.{IsGood}

pub holds-append :
    (h : BlockHash) (xs ys : List BlockHash)
    → holds h (xs ++ ys) ≡ true
    → (holds h xs ≡ true) ⊎ (holds h ys ≡ true)
holds-append h [] ys found = inr found
holds-append h (x ∷ xs) ys found = grind (arith, holds-append h xs ys)

module _ {bitcoin : Bitcoin} where
  pub holds-hashes :
      (h : BlockHash) (es : List (HeaderEntry bitcoin))
      → holds h (hashes_of es) ≡ true
      → (k : ℕ) × (e : HeaderEntry bitcoin) × (get_elem? es k ≡ some e) × (e.hash ≡ h)
  holds-hashes h [] found = absurd (ground arith)
  holds-hashes h (e ∷ es) found = elim (Bool-cases (e.hash == h)) [
    | inl same ↦ (0, e, refl, (==_iff e.hash h).0 same)
    | inr other ↦
        let (k, f, at, hash) = holds-hashes h es (ground (arith, found, other)) in
        (suc k, f, at, hash)
  ]

  pub keep-at :
      (p : HeaderEntry bitcoin → Bool) (es : List (HeaderEntry bitcoin)) (k : ℕ)
      (e : HeaderEntry bitcoin)
      → get_elem? es k ≡ some e
      → p e ≡ true
      → (j : ℕ) × (get_elem? (keep p es) j ≡ some e)
  keep-at p [] k e at passes = absurd (ground arith)
  keep-at p (f ∷ es) zero e at passes =
      let same : f ≡ e = cc (at) in
      let here : p f ≡ true = subst (λ (x : HeaderEntry bitcoin). p x ≡ true) (sym same) passes in
      (0, rw here at)
  keep-at p (f ∷ es) (suc k) e at passes =
      let (j, there) = keep-at p es k e at passes in
      elim (Bool-cases (p f)) [ inl kept ↦ (suc j, rw kept there) | inr gone ↦ (j, rw gone there) ]

module _ {ℓ} {A : Type ℓ} where
  pub keep-of :
      (p : A → Bool) (xs : List A) (k : ℕ) (a : A)
      → get_elem? (keep p xs) k ≡ some a
      → (j : ℕ) × (get_elem? xs j ≡ some a)
  keep-of p [] k a at = absurd (ground arith)
  keep-of p (x ∷ xs) zero a at = elim (Bool-cases (p x)) [
    | inl kept ↦ (0, rw kept at at)
    | inr gone ↦ let (j, there) = keep-of p xs zero a (rw gone at at) in (suc j, there)
  ]
  keep-of p (x ∷ xs) (suc k) a at = elim (Bool-cases (p x)) [
    | inl kept ↦ let (j, there) = keep-of p xs k a (rw kept at at) in (suc j, there)
    | inr gone ↦ let (j, there) = keep-of p xs (suc k) a (rw gone at at) in (suc j, there)
  ]

pub number_from-Good :
    (bitcoin : Bitcoin) (IsSeen : bitcoin.BlockHeader → Type 0) (n : ℕ)
    (hs : List bitcoin.BlockHeader)
    → All IsSeen hs
    → All (IsGood IsSeen) (number_from n (hashed bitcoin hs))
unfolding number_from
number_from-Good bitcoin IsSeen n [] a = tt
number_from-Good bitcoin IsSeen n (h ∷ hs) a =
    ((a.0, refl), number_from-Good bitcoin IsSeen (n + 1) hs a.1)

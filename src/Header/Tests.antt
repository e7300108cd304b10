-- ===== src/Header/Tests.antt =====
-- The header list on a small chain: three blocks, and a rival of the third.
use sxn_spv.Common.{
  ℕ, zero, suc, ◌⊎◌, inl, inr, sym, ap, ◌∙◌, ◌-◌, ◌+◌, ◌/◌, ◌≤◌, ◌<◌, ◌≡◌, ◌≢◌, ◌↔◌, refl, none,
  some, [], ◌∷◌, get_elem?, ltb, leb, arith,
}
use sxn_spv.Common.Outcome.{Panics, ok, ◌>>=◌}
use sxn_spv.Common.Classes.{nat_eq}
use sxn_spv.Common.HashMap
use sxn_spv.Common.HashMap.{HashMap}
use sxn_spv.Common.Sorting.{count_if}
use sxn_spv.Bitcoin.{Bitcoin}
use sxn_spv.Header.{
  HeaderEntry, HeaderList, chain_back, header_by_blockhash, header_by_height, assert_linked,
  new_height, number_from, order, assert_consecutive, expected_prev_blockhash, split_off, push,
  push_all, replace_from, apply, tip, new, from_chain,
}
use sxn_spv.Header.Chain.{NoCollision}
use sxn_spv.Header.Apply.{Indexed, IsValid}
use sxn_spv.Header.Invariant.{apply-IsValid}
use sxn_spv.Header.Lookup.{header_by_blockhash_iff}
use sxn_spv.Header.Order.{block_headers, order-apply}
use sxn_spv.Header.Rebuild.{new_total, new_rebuilds}
use sxn_spv.Header.MedianTime.{get_mtp, times, get_mtp_median}

-- A header is the hash before it, its own hash, and its time.
abbrev Block : Type 0
Block = ℕ × ℕ × ℕ

abbrev test_bitcoin : Bitcoin
test_bitcoin = record {
  BlockHeader = Block;
  prev_blockhash = λ b. b.0;
  merkle_root = λ b. 0;
  time = λ b. b.2;
  block_hash = λ b. b.1;
}

abbrev genesis : Block
genesis = (0, 1, 100)

abbrev second : Block
second = (1, 2, 300)

abbrev third : Block
third = (2, 3, 200)

abbrev rival : Block
rival = (1, 7, 250)

abbrev entry : ℕ → Block → HeaderEntry test_bitcoin
entry height b = record { height = height; hash = b.1; header = b }

abbrev two : HeaderList test_bitcoin
two = record {
  headers = entry 0 genesis ∷ entry 1 second ∷ [];
  heights = (1, 0) ∷ (2, 1) ∷ [];
  tip = 2;
}

-- `two`, once `rival` has taken the place of `second`.
abbrev replaced : HeaderList test_bitcoin
replaced = record {
  headers = entry 0 genesis ∷ entry 1 rival ∷ [];
  heights = (1, 0) ∷ (2, 1) ∷ (7, 1) ∷ [];
  tip = 7;
}

program : Unit {0}
unfolding chain_back header_by_blockhash header_by_height assert_linked new_height number_from order
    assert_consecutive expected_prev_blockhash split_off push push_all replace_from apply tip new
    from_chain HashMap.get HashMap.insert HashMap.remove
program = tt

two-Indexed : Indexed two
unfolding HashMap.get
two-Indexed zero e at = ground arith
two-Indexed (suc zero) e at = ground arith
two-Indexed (suc (suc i)) e at = ground arith

two-IsValid : IsValid two
two-IsValid = record {
  linked = (refl, refl, refl, (refl, refl, refl, tt));
  tip_last = refl;
  indexed = two-Indexed;
}

pair_at :
    (a b x : HeaderEntry test_bitcoin) (i : ℕ)
    → get_elem? (a ∷ b ∷ []) i ≡ some x
    → (x ≡ a) ⊎ (x ≡ b)
pair_at a b x zero at = inl (cc)
pair_at a b x (suc zero) at = inr (cc)
pair_at a b x (suc (suc i)) at = absurd (ground arith)

abbrev header_of : HeaderEntry test_bitcoin → Block
header_of e = e.header

abbrev hash_of : HeaderEntry test_bitcoin → ℕ
hash_of e = e.header.1

-- Two blocks with different hashes that are not null.
pair-NoCollision :
    (a b : Block)
    → a.1 ≢ b.1
    → a.1 ≢ 0
    → b.1 ≢ 0
    → NoCollision {bitcoin = test_bitcoin} (entry 0 a ∷ entry 1 b ∷ [])
pair-NoCollision a b differ a0 b0 = record {
  injective = λ i j x y at bt same. elim (pair_at (entry 0 a) (entry 1 b) x i at) [
    | inl xa ↦ elim (pair_at (entry 0 a) (entry 1 b) y j bt) [
      | inl ya ↦ ap header_of (xa ∙ sym ya)
      | inr yb ↦ absurd (differ (sym (ap hash_of xa) ∙ same ∙ ap hash_of yb))
    ]
    | inr xb ↦ elim (pair_at (entry 0 a) (entry 1 b) y j bt) [
      | inl ya ↦ absurd (differ (sym (ap hash_of ya) ∙ sym same ∙ ap hash_of xb))
      | inr yb ↦ ap header_of (xb ∙ sym yb)
    ]
  ];
  nonzero = λ i x at null. elim (pair_at (entry 0 a) (entry 1 b) x i at) [
    | inl xa ↦ a0 (sym (ap hash_of xa) ∙ null)
    | inr xb ↦ b0 (sym (ap hash_of xb) ∙ null)
  ];
}

two-NoCollision : NoCollision two.headers
two-NoCollision =
    pair-NoCollision genesis second (λ h. omega arith) (λ h. omega arith) (λ h. omega arith)

order-apply_example :
    (hl' : HeaderList test_bitcoin) × ((order two (rival ∷ []) >>= apply two) ≡ ok hl')
    × (block_headers test_bitcoin hl'.headers ≡ genesis ∷ rival ∷ [])
    × (hl'.tip ≡ 7)
order-apply_example =
    order-apply two 1 rival [] two-IsValid two-NoCollision (omega arith) (refl, tt)

apply-IsValid_example : IsValid replaced
unfolding program
apply-IsValid_example =
    apply-IsValid two replaced (entry 1 rival ∷ []) two-IsValid (refl, tt) refl
      (pair-NoCollision genesis rival (λ h. omega arith) (λ h. omega arith) (λ h. omega arith))

-- The stored headers, a replaced one among them.
abbrev stored : HashMap ℕ Block
stored = (2, second) ∷ (9, rival) ∷ (1, genesis) ∷ []

stored_lem :
    (i : ℕ) (e : HeaderEntry test_bitcoin)
    → get_elem? two.headers i ≡ some e
    → HashMap.get e.hash stored ≡ some e.header
unfolding HashMap.get
stored_lem zero e at = ground arith
stored_lem (suc zero) e at = ground arith
stored_lem (suc (suc i)) e at = absurd (ground arith)

new_rebuilds_example :
    (hl' : HeaderList test_bitcoin) × (new test_bitcoin stored two.tip ≡ some (ok hl'))
    × (hl'.headers ≡ two.headers)
    × (hl'.tip ≡ two.tip)
    × IsValid hl'
new_rebuilds_example = new_rebuilds test_bitcoin two stored two-IsValid two-NoCollision stored_lem

new_total_example : (r : Panics (HeaderList test_bitcoin)) × (new test_bitcoin stored 5 ≡ some r)
new_total_example = new_total test_bitcoin stored 5

header_by_blockhash_iff_example :
    (header_by_blockhash two 2 ≡ some (entry 1 second))
    ↔ ((i : ℕ) × (get_elem? two.headers i ≡ some (entry 1 second)) × ((entry 1 second).hash ≡ 2))
header_by_blockhash_iff_example = header_by_blockhash_iff two 2 (entry 1 second) two-IsValid

get_mtp_median_example :
    (t : ℕ) × (get_mtp two 1 ≡ ok t)
    × (count_if (λ y. ltb y t) (times two (1 - 10) (1 + 1 - (1 - 10))) ≤ (1 + 1 - (1 - 10)) / 2)
    × ((1 + 1 - (1 - 10)) / 2 < count_if (λ y. leb y t) (times two (1 - 10) (1 + 1 - (1 - 10))))
get_mtp_median_example = get_mtp_median two 1 (omega arith) (omega arith)

-- Runs of the definitions: the rival replaces the second block, and a list that does not link to
-- what is there changes nothing.
apply-rival : apply two (entry 1 rival ∷ []) ≡ ok replaced
unfolding program
apply-rival = refl

apply-unlinked : apply two (entry 2 rival ∷ []) ≡ ok two
unfolding program
apply-unlinked = refl

-- The hash that was replaced is not found, although its height is still in the map.
found-replaced : header_by_blockhash replaced 2 ≡ none
unfolding program
found-replaced = refl

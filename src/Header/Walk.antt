-- ===== src/Header/Walk.antt =====
-- The loop of `HeaderList::new`: from a hash back to the null hash through a map of headers.
use mathlib.Core.Path.{subst}
use mathlib.Core.List.{map-append, reverse-append, append_assoc, append-nil}
use native.Mathlib.Nat.{le_refl}
use sxn_spv.Common.{
  ℕ, zero, suc, ◌≤◌, ◌<◌, ◌≡◌, refl, sym, ap, ◌∙◌, inl, inr, false, some, List, [], ◌∷◌, ◌++◌,
  reverse, length, get_elem?, get_elem?-some, take, take_all, take-suc, ◌==◌, Bool-cases,
  Option-cases, arith,
}
use sxn_spv.Common.Outcome.{Panics, ok, panic}
use sxn_spv.Common.Classes.{nat_eq}
use sxn_spv.Common.HashMap
use sxn_spv.Common.HashMap.{HashMap, get-remove, length-remove-lt}
use sxn_spv.Bitcoin.{Bitcoin, BlockHash, all_zeros}
use sxn_spv.Header.{HeaderEntry, chain_back}
use sxn_spv.Header.Chain.{
  Linked, last_hash, last_hash-take-suc, Linked-at, NoCollision, Distinct, Linked-Distinct,
}
use sxn_spv.Header.Order.{block_headers}

module _ (bitcoin : Bitcoin) where
  open bitcoin use {BlockHeader, prev_blockhash, block_hash}

  -- Every round takes one header out of the map, so that the loop ends within its fuel.
  pub chain_back_total :
      (fuel : ℕ) (m : HashMap BlockHash BlockHeader) (h : BlockHash) (acc : List BlockHeader)
      → length m < fuel
      → (r : Panics (List BlockHeader)) × (chain_back bitcoin fuel m h acc ≡ some r)
  unfolding chain_back
  chain_back_total zero m h acc lt = absurd (omega arith)
  chain_back_total (suc fuel) m h acc lt = elim (Bool-cases (h == all_zeros)) [
    | inl done ↦ (ok acc, rw done)
    | inr more ↦ elim (Option-cases (HashMap.get h m)) [
      | inl missing ↦ (panic, rw (more, missing))
      | inr (header, at) ↦
          rw (more, at)
            (chain_back_total fuel (HashMap.remove h m) (prev_blockhash header) (acc ++ header ∷ [])
              (omega (arith, length-remove-lt h m header at)))
    ]
  ]

  chain_back_step :
      (fuel : ℕ) (m : HashMap BlockHash BlockHeader) (h : BlockHash) (acc : List BlockHeader)
      (header : BlockHeader)
      → (h == all_zeros) ≡ false
      → HashMap.get h m ≡ some header
      → chain_back bitcoin (suc fuel) m h acc
        ≡ chain_back bitcoin fuel (HashMap.remove h m) (prev_blockhash header) (acc ++ header ∷ [])
  unfolding chain_back
  chain_back_step fuel m h acc header live at = rw (live, at)

  chain_back_end :
      (fuel : ℕ) (m : HashMap BlockHash BlockHeader) (acc : List BlockHeader)
      → chain_back bitcoin (suc fuel) m all_zeros acc ≡ some (ok acc)
  unfolding chain_back
  chain_back_end fuel m acc = refl

  -- Two amounts of fuel that are both enough give one result.
  pub chain_back_agree :
      (f g : ℕ) (m : HashMap BlockHash BlockHeader) (h : BlockHash) (acc : List BlockHeader)
      (r r' : Panics (List BlockHeader))
      → chain_back bitcoin f m h acc ≡ some r
      → chain_back bitcoin g m h acc ≡ some r'
      → r ≡ r'
  unfolding chain_back
  chain_back_agree zero g m h acc r r' p q = cc
  chain_back_agree (suc f) zero m h acc r r' p q = cc
  chain_back_agree (suc f) (suc g) m h acc r r' p q = elim (Bool-cases (h == all_zeros)) [
    | inl done ↦ ground arith
    | inr more ↦ elim (Option-cases (HashMap.get h m)) [
      | inl missing ↦ ground arith
      | inr (header, at) ↦
          chain_back_agree f g (HashMap.remove h m) (prev_blockhash header) (acc ++ header ∷ []) r
            r' (rw (more, at) at p) (rw (more, at) at q)
    ]
  ]

  module _ (es : List (HeaderEntry bitcoin)) where
    -- The headers of the first `n` entries are stored under their hashes.
    abbrev pub StoredBelow : ℕ → HashMap BlockHash BlockHeader → Type 0
    StoredBelow n m =
        (i : ℕ) (e : HeaderEntry bitcoin)
        → i < n
        → get_elem? es i ≡ some e
        → HashMap.get e.hash m ≡ some e.header

    remove-StoredBelow :
        (n : ℕ) (m : HashMap BlockHash BlockHeader) (e : HeaderEntry bitcoin)
        → Distinct es
        → get_elem? es n ≡ some e
        → StoredBelow (suc n) m
        → StoredBelow n (HashMap.remove e.hash m)
    remove-StoredBelow n m e d at stored i a lt at' =
        ground (arith, get-remove e.hash a.hash m, stored i a (omega arith) at', d i n a e at' at)

    reverse-take-suc :
        (n : ℕ) (e : HeaderEntry bitcoin) (acc : List BlockHeader)
        → get_elem? es n ≡ some e
        → (acc ++ e.header ∷ []) ++ reverse (block_headers bitcoin (take n es))
          ≡ acc ++ reverse (block_headers bitcoin (take (suc n) es))
    reverse-take-suc n e acc at =
        append_assoc acc (e.header ∷ []) (reverse (block_headers bitcoin (take n es)))
        ∙ ap (λ (x : List BlockHeader). acc ++ x)
            (sym (
              ap (λ (x : List (HeaderEntry bitcoin)). reverse (block_headers bitcoin x))
                (take-suc n es e at)
              ∙ ap reverse (map-append (λ (x : HeaderEntry bitcoin). x.header) (take n es) (e ∷ []))
              ∙ reverse-append (block_headers bitcoin (take n es)) (e.header ∷ [])))

    chain_back_lem :
        (fuel n : ℕ) (m : HashMap BlockHash BlockHeader) (acc : List BlockHeader)
        → Linked all_zeros 0 es
        → NoCollision es
        → n < fuel
        → n ≤ length es
        → StoredBelow n m
        → chain_back bitcoin fuel m (last_hash all_zeros (take n es)) acc
          ≡ some (ok (acc ++ reverse (block_headers bitcoin (take n es))))
    chain_back_lem zero n m acc l free lt le stored = absurd (omega arith)
    chain_back_lem (suc fuel) zero m acc l free lt le stored =
        chain_back_end fuel m acc
        ∙ ap (λ (x : List BlockHeader). some (ok x)) (sym (append-nil acc))
    chain_back_lem (suc fuel) (suc n) m acc l free lt le stored =
        let (e, at) = get_elem?-some es n (omega arith) in
        let facts = Linked-at all_zeros 0 n es e l at in
        let live : (e.hash == all_zeros) ≡ false = ground (arith, free.nonzero n e at, facts.1) in
        let rest =
          chain_back_lem fuel n (HashMap.remove e.hash m) (acc ++ e.header ∷ []) l free
            (omega arith) (omega arith)
            (remove-StoredBelow n m e (Linked-Distinct es l free) at stored) in
        rw (last_hash-take-suc all_zeros n es e at) (
          chain_back_step fuel m e.hash acc e.header live (stored n e (omega arith) at)
          ∙ rw (← facts.2) at rest
          ∙ ap (λ (x : List BlockHeader). some (ok x)) (reverse-take-suc n e acc at))

    pub walk_all :
        (m : HashMap BlockHash BlockHeader)
        → Linked all_zeros 0 es
        → NoCollision es
        → StoredBelow (length es) m
        → chain_back bitcoin (suc (length es)) m (last_hash all_zeros es) []
          ≡ some (ok (reverse (block_headers bitcoin es)))
    walk_all m l free stored =
        let n = length es in
        subst
          (λ (x : List (HeaderEntry bitcoin)).
            chain_back bitcoin (suc n) m (last_hash all_zeros x) []
            ≡ some (ok (reverse (block_headers bitcoin x))))
          (take_all n es (le_refl n))
          (chain_back_lem (suc n) n m [] l free (omega arith) (le_refl n) stored)

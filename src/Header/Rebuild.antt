-- ===== src/Header/Rebuild.antt =====
-- `HeaderList::new`: the list rebuilt from a map of stored headers and the hash of the tip.
use mathlib.Core.Path.{subst}
use mathlib.Core.List.{reverse-reverse}
use sxn_spv.Common.{
  ℕ, suc, ◌+◌, ◌≡◌, refl, sym, ap, ◌∙◌, some, List, [], ◌∷◌, reverse, length, get_elem?, arith,
}
use sxn_spv.Common.Outcome.{Panics, ok, ◌>>=◌}
use sxn_spv.Common.Classes.{nat_eq}
use sxn_spv.Common.HashMap
use sxn_spv.Common.HashMap.{HashMap, get-remove, length-remove-lt}
use sxn_spv.Bitcoin.{Bitcoin, BlockHash, all_zeros}
use sxn_spv.Header.{
  HeaderEntry, HeaderList, empty, number_from, order, apply, chain_back, from_chain, new,
}
use sxn_spv.Header.Chain.{Linked, last_hash, NoCollision}
use sxn_spv.Header.Apply.{IsValid, IsHashed, apply_extends}
use sxn_spv.Header.Invariant.{apply-IsValid}
use sxn_spv.Header.Walk.{chain_back_total, chain_back_agree, walk_all}
use sxn_spv.Header.Order.{HeaderChain, hashed, block_headers, order_lem}

module _ (bitcoin : Bitcoin) where
  open bitcoin use {BlockHeader, prev_blockhash, block_hash}

  Linked-HeaderChain :
      (prev : BlockHash) (n : ℕ) (es : List (HeaderEntry bitcoin))
      → Linked prev n es
      → HeaderChain bitcoin prev (block_headers bitcoin es)
  Linked-HeaderChain prev n [] l = tt
  Linked-HeaderChain prev n (e ∷ es) l = (
    l.2,
    subst (λ h. HeaderChain bitcoin h (block_headers bitcoin es)) l.1
        (Linked-HeaderChain e.hash (suc n) es l.3),
  )

  Linked-IsHashed :
      (prev : BlockHash) (n : ℕ) (es : List (HeaderEntry bitcoin)) → Linked prev n es → IsHashed es
  Linked-IsHashed prev n [] l = tt
  Linked-IsHashed prev n (e ∷ es) l = (l.1, Linked-IsHashed e.hash (suc n) es l.3)

  -- A chain of entries is what numbering its headers gives back.
  Linked-number_from :
      (prev : BlockHash) (n m : ℕ) (es : List (HeaderEntry bitcoin))
      → n ≡ m
      → Linked prev n es
      → number_from m (hashed bitcoin (block_headers bitcoin es)) ≡ es
  unfolding number_from
  Linked-number_from prev n m [] eq l = refl
  Linked-number_from prev n m (e ∷ es) eq l =
      ground (arith, Linked-number_from e.hash (suc n) (m + 1) es (omega arith) l.3)

  empty-IsValid : IsValid (empty {bitcoin = bitcoin})
  empty-IsValid = record { linked = tt; tip_last = refl; indexed = λ i e at. ground arith }

  empty-NoCollision : NoCollision {bitcoin = bitcoin} []
  empty-NoCollision = record {
    injective = λ i j a b at bt e. ground arith;
    nonzero = λ i a at. ground arith;
  }

  order-empty :
      (es : List (HeaderEntry bitcoin))
      → Linked all_zeros 0 es
      → order empty (block_headers bitcoin es) ≡ ok es
  unfolding order
  order-empty [] l = refl
  order-empty (e ∷ es) l =
      order_lem empty 0 e.header (block_headers bitcoin es) empty-IsValid empty-NoCollision
        (omega arith) (Linked-HeaderChain all_zeros 0 (e ∷ es) l)
      ∙ ap (λ (x : List (HeaderEntry bitcoin)). ok x)
          (Linked-number_from all_zeros 0 0 (e ∷ es) refl l)

  from_chain-reverse :
      (hs : List BlockHeader) → from_chain bitcoin (reverse hs) ≡ (order empty hs >>= apply empty)
  unfolding from_chain
  from_chain-reverse hs = rw (reverse-reverse hs)

  from_chain_ordered :
      (es : List (HeaderEntry bitcoin))
      → Linked all_zeros 0 es
      → from_chain bitcoin (reverse (block_headers bitcoin es)) ≡ apply empty es
  from_chain_ordered es l = rw (from_chain-reverse (block_headers bitcoin es), order-empty es l)

  apply-empty :
      (es : List (HeaderEntry bitcoin))
      → Linked all_zeros 0 es
      → (hl' : HeaderList bitcoin) × (apply empty es ≡ ok hl')
        × (hl'.headers ≡ es)
        × (hl'.tip ≡ last_hash all_zeros es)
  unfolding apply
  apply-empty [] l = (empty, refl, refl, refl)
  apply-empty (e ∷ es) l = apply_extends empty 0 e es (omega arith) l

  -- `new` ends for every map and tip: it returns a list or it panics.
  pub new_total :
      (m : HashMap BlockHash BlockHeader) (tip_hash : BlockHash)
      → (r : Panics (HeaderList bitcoin)) × (new bitcoin m tip_hash ≡ some r)
  unfolding new
  new_total m tip_hash =
      let (r, done) = chain_back_total bitcoin (length m + 1) m tip_hash [] (omega arith) in
      (r >>= from_chain bitcoin, rw (done, new))

  new_lem :
      (m : HashMap BlockHash BlockHeader) (tip_hash : BlockHash) (chain : List BlockHeader)
      → chain_back bitcoin (length m + 1) m tip_hash [] ≡ some (ok chain)
      → new bitcoin m tip_hash ≡ some (from_chain bitcoin chain)
  unfolding new
  new_lem m tip_hash chain done = rw (done, new)

  -- A valid list whose headers are all stored under their hashes is rebuilt from the stored map
  -- and its tip: same entries, same tip, and a valid list again.
  pub new_rebuilds :
      (hl : HeaderList bitcoin) (m : HashMap BlockHash BlockHeader)
      → IsValid hl
      → NoCollision hl.headers
      → ((i : ℕ) (e : HeaderEntry bitcoin)
          → get_elem? hl.headers i ≡ some e
          → HashMap.get e.hash m ≡ some e.header)
      → (hl' : HeaderList bitcoin) × (new bitcoin m hl.tip ≡ some (ok hl'))
        × (hl'.headers ≡ hl.headers)
        × (hl'.tip ≡ hl.tip)
        × IsValid hl'
  new_rebuilds hl m v free stored =
      let es = hl.headers in
      let (hl', done, shape, at_tip) = apply-empty es v.linked in
      let all = length es in
      let (r, total) = chain_back_total bitcoin (length m + 1) m hl.tip [] (omega arith) in
      let long = walk_all bitcoin es m v.linked free (λ i e lt at. stored i e at) in
      let long' =
        subst
          (λ h.
            chain_back bitcoin (suc all) m h [] ≡ some (ok (reverse (block_headers bitcoin es))))
          (sym v.tip_last) long in
      let walked =
        total
        ∙ ap (λ (x : Panics (List BlockHeader)). some x)
            (chain_back_agree bitcoin (length m + 1) (suc all) m hl.tip [] r _ total long') in
      (
        hl',
        new_lem m hl.tip (reverse (block_headers bitcoin es)) walked
            ∙ ap (λ (x : Panics (HeaderList bitcoin)). some x)
                (from_chain_ordered es v.linked ∙ done),
        shape,
        at_tip ∙ sym v.tip_last,
        apply-IsValid empty hl' es empty-IsValid (Linked-IsHashed all_zeros 0 es v.linked) done
            (subst NoCollision (sym shape) free),
      )

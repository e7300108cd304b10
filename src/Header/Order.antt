-- ===== src/Header/Order.antt =====
-- `HeaderList::order`, and the two calls that the indexer makes in turn: `order`, then `apply`.
use sxn_spv.Common.{
  ℕ, zero, suc, ◌+◌, ◌≤◌, ◌≡◌, refl, sym, ap, ◌∙◌, List, [], ◌∷◌, ◌++◌, map, length, get_elem?-some,
  take, arith,
}
use mathlib.Core.List.{map-append}
use sxn_spv.Common.Outcome.{ok, ◌>>=◌}
use sxn_spv.Bitcoin.{Bitcoin, BlockHash, all_zeros}
use sxn_spv.Header.{
  HeaderEntry, HeaderList, HashedHeader, hashed_header, assert_linked, new_height, number_from,
  order, apply,
}
use sxn_spv.Header.Chain.{Linked, last_hash, last_hash-take-suc, Linked-at, NoCollision}
use sxn_spv.Header.Apply.{IsValid, apply_extends}
use sxn_spv.Header.Lookup.{header_by_blockhash_at}

module _ (bitcoin : Bitcoin) where
  open bitcoin use {BlockHeader, prev_blockhash, block_hash}

  -- The headers continue a chain whose last hash is `prev`.
  abbrev pub HeaderChain : BlockHash → List BlockHeader → Type 0
  HeaderChain prev [] = Unit
  HeaderChain prev (h ∷ hs) = (prev_blockhash h ≡ prev) × HeaderChain (block_hash h) hs

  abbrev pub last_block_hash : BlockHash → List BlockHeader → BlockHash
  last_block_hash prev [] = prev
  last_block_hash prev (h ∷ hs) = last_block_hash (block_hash h) hs

  abbrev pub hashed : List BlockHeader → List (HashedHeader bitcoin)
  hashed = map hashed_header

  chain-assert_linked :
      (prev : BlockHash) (hs : List BlockHeader)
      → HeaderChain prev hs
      → assert_linked (hashed hs) ≡ ok tt
  unfolding assert_linked
  chain-assert_linked prev [] c = refl
  chain-assert_linked prev (h ∷ []) c = refl
  chain-assert_linked prev (h ∷ h' ∷ hs) c =
      ground (arith, chain-assert_linked (block_hash h) (h' ∷ hs) c.1)

  pub number_from-Linked :
      (prev : BlockHash) (n m : ℕ) (hs : List BlockHeader)
      → m ≡ n
      → HeaderChain prev hs
      → Linked prev m (number_from n (hashed hs))
  unfolding number_from
  number_from-Linked prev n m [] e c = tt
  number_from-Linked prev n m (h ∷ hs) e c =
      (sym e, refl, c.0, number_from-Linked (block_hash h) (n + 1) (suc m) hs (omega arith) c.1)

  pub number_from-last_hash :
      (prev : BlockHash) (n : ℕ) (hs : List BlockHeader)
      → last_hash prev (number_from {bitcoin = bitcoin} n (hashed hs)) ≡ last_block_hash prev hs
  unfolding number_from
  number_from-last_hash prev n [] = refl
  number_from-last_hash prev n (h ∷ hs) = number_from-last_hash (block_hash h) (n + 1) hs

  abbrev pub block_headers : List (HeaderEntry bitcoin) → List BlockHeader
  block_headers = map (λ e. e.header)

  number_from-headers :
      (n : ℕ) (hs : List BlockHeader) → block_headers (number_from n (hashed hs)) ≡ hs
  unfolding number_from
  number_from-headers n [] = refl
  number_from-headers n (h ∷ hs) = ap (◌∷◌ h) (number_from-headers (n + 1) hs)

module _ {bitcoin : Bitcoin} where
  open bitcoin use {BlockHeader, prev_blockhash, block_hash}

  -- The height after a prefix of a valid list is found from the hash that the prefix ends in.
  new_height_lem :
      (hl : HeaderList bitcoin) (n : ℕ)
      → IsValid hl
      → NoCollision hl.headers
      → n ≤ length hl.headers
      → new_height hl (last_hash all_zeros (take n hl.headers)) ≡ ok n
  unfolding new_height
  new_height_lem hl zero v free h = refl
  new_height_lem hl (suc n) v free h =
      let (e, at) = get_elem?-some hl.headers n (omega arith) in
      let facts = Linked-at all_zeros 0 n hl.headers e v.linked at in
      rw (last_hash-take-suc all_zeros n hl.headers e at) (
        ground (
          arith,
          header_by_blockhash_at hl e.hash n e v at refl,
          facts.0,
          facts.1,
          free.nonzero n e at,
        ))

  pub order_lem :
      (hl : HeaderList bitcoin) (n : ℕ) (h : BlockHeader) (hs : List BlockHeader)
      → IsValid hl
      → NoCollision hl.headers
      → n ≤ length hl.headers
      → HeaderChain bitcoin (last_hash all_zeros (take n hl.headers)) (h ∷ hs)
      → order hl (h ∷ hs) ≡ ok (number_from n (hashed bitcoin (h ∷ hs)))
  unfolding order
  order_lem hl n h hs v free le c =
      rw (chain-assert_linked bitcoin _ (h ∷ hs) c, c.0, new_height_lem hl n v free le)

  -- New headers that form a chain from the block at some height of a valid list (or from the null
  -- hash) are ordered and applied with no panic: the result holds the old headers below that
  -- height, then the new ones, and its tip is the hash of the last new one.
  pub order-apply :
      (hl : HeaderList bitcoin) (n : ℕ) (h : BlockHeader) (hs : List BlockHeader)
      → IsValid hl
      → NoCollision hl.headers
      → n ≤ length hl.headers
      → HeaderChain bitcoin (last_hash all_zeros (take n hl.headers)) (h ∷ hs)
      → (hl' : HeaderList bitcoin) × ((order hl (h ∷ hs) >>= apply hl) ≡ ok hl')
        × (block_headers bitcoin hl'.headers ≡ block_headers bitcoin (take n hl.headers) ++ h ∷ hs)
        × (hl'.tip ≡ last_block_hash bitcoin (block_hash h) hs)
  unfolding number_from
  order-apply hl n h hs v free le c =
      let prev = last_hash all_zeros (take n hl.headers) in
      let entries : List (HeaderEntry bitcoin) = number_from (n + 1) (hashed bitcoin hs) in
      let first : HeaderEntry bitcoin = record { height = n; hash = block_hash h; header = h } in
      let (hl', done, shape, at_tip) =
        apply_extends hl n first entries le (number_from-Linked bitcoin prev n n (h ∷ hs) refl c) in
      (
        hl',
        rw (order_lem hl n h hs v free le c) done,
        ap (block_headers bitcoin) shape
            ∙ map-append (λ (e : HeaderEntry bitcoin). e.header) (take n hl.headers)
                (first ∷ entries)
            ∙ ap (λ (x : List BlockHeader). block_headers bitcoin (take n hl.headers) ++ h ∷ x)
                (number_from-headers bitcoin (n + 1) hs),
        at_tip ∙ number_from-last_hash bitcoin (block_hash h) (n + 1) hs,
      )

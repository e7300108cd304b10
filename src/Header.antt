-- ===== src/Header.antt =====
-- `HeaderEntry` and `HeaderList` of src/header.rs: the chain of headers from the genesis block to the
-- tip, with the height of every hash that was ever pushed. An assertion that fails, an index out of
-- range and a failed `unwrap` are `panic`.
pub mod Chain
pub mod Apply
pub mod Invariant
pub mod Lookup
pub mod Order
pub mod Walk
pub mod Rebuild
pub mod MedianTime
mod Tests
use sxn_spv.Common.{
  ℕ, zero, suc, ◌+◌, ◌-◌, Option, none, some, List, [], ◌∷◌, ◌++◌, map, reverse, Bool, length,
  get_elem?, take, last?, ltb, leb, ◌==◌, if◌then◌else◌,
}
use sxn_spv.Common.Outcome.{Panics, ok, panic, ◌>>=◌, ◌>>◌, assert, unwrap}
use sxn_spv.Common.Classes.{nat_eq}
use sxn_spv.Common.HashMap
use sxn_spv.Common.HashMap.{HashMap}
use sxn_spv.Bitcoin.{Bitcoin, BlockHash, all_zeros}

abbrev pub mtp_span : ℕ
mtp_span = 11

pub record HeaderEntry (bitcoin : Bitcoin) : Type 0 where
  pub height : ℕ
  pub hash : BlockHash
  pub header : bitcoin.BlockHeader

pub record HeaderList (bitcoin : Bitcoin) : Type 0 where
  pub headers : List (HeaderEntry bitcoin)
  pub heights : HashMap BlockHash ℕ
  pub tip : BlockHash

pub record HashedHeader (bitcoin : Bitcoin) : Type 0 where
  pub blockhash : BlockHash
  pub header : bitcoin.BlockHeader

abbrev pub empty : {bitcoin : Bitcoin} → HeaderList bitcoin
empty = record { headers = []; heights = []; tip = all_zeros }

module _ (bitcoin : Bitcoin) where
  open bitcoin use {BlockHeader, prev_blockhash}

  -- The loop of `new`: from the tip back to the null hash, each header taken out of the map. `none`
  -- means that the fuel ran out.
  unfoldable pub chain_back :
      ℕ
      → HashMap BlockHash BlockHeader
      → BlockHash
      → List BlockHeader
      → Option (Panics (List BlockHeader))
  chain_back zero headers_map blockhash chain = none
  chain_back (suc fuel) headers_map blockhash chain =
      if blockhash == all_zeros then some (ok chain) else elim (HashMap.get blockhash headers_map) [
        | none ↦ some panic
        | some header ↦
            chain_back fuel (HashMap.remove blockhash headers_map) (prev_blockhash header)
              (chain ++ header ∷ [])
      ]

module _ {bitcoin : Bitcoin} where
  open bitcoin use {BlockHeader, prev_blockhash, time, block_hash}

  unfoldable pub header_by_blockhash : HeaderList bitcoin → BlockHash → Option (HeaderEntry bitcoin)
  header_by_blockhash hl blockhash = elim (HashMap.get blockhash hl.heights) [
    | none ↦ none
    | some height ↦ elim (get_elem? hl.headers height) [
      | none ↦ none
      | some header ↦ if blockhash == header.hash then some header else none
    ]
  ]

  -- The closure of `inspect`.
  abbrev assert_height : ℕ → Option (HeaderEntry bitcoin) → Panics (Option (HeaderEntry bitcoin))
  assert_height height none = ok none
  assert_height height (some entry) = do assert (entry.height == height); ok (some entry)

  unfoldable pub header_by_height : HeaderList bitcoin → ℕ → Panics (Option (HeaderEntry bitcoin))
  header_by_height hl height = assert_height height (get_elem? hl.headers height)

  -- `order`: each header is hashed, and must point to the one before it.
  abbrev pub hashed_header : BlockHeader → HashedHeader bitcoin
  hashed_header h = record { blockhash = block_hash h; header = h }

  unfoldable pub assert_linked : List (HashedHeader bitcoin) → Panics (Unit {0})
  assert_linked [] = ok tt
  assert_linked (h ∷ []) = ok tt
  assert_linked (h ∷ h' ∷ hs) = do
    assert (prev_blockhash h'.header == h.blockhash)
    assert_linked (h' ∷ hs)

  unfoldable pub new_height : HeaderList bitcoin → BlockHash → Panics ℕ
  new_height hl prev =
      if prev == all_zeros
      then ok 0
      else do entry ← unwrap (header_by_blockhash hl prev); ok (entry.height + 1)

  -- `(new_height..).zip(hashed_headers)`
  unfoldable pub number_from : ℕ → List (HashedHeader bitcoin) → List (HeaderEntry bitcoin)
  number_from height [] = []
  number_from height (h ∷ hs) =
      (record { height = height; hash = h.blockhash; header = h.header })
      ∷ number_from (height + 1) hs

  unfoldable pub order_hashed :
      HeaderList bitcoin → List (HashedHeader bitcoin) → Panics (List (HeaderEntry bitcoin))
  order_hashed hl [] = ok []
  order_hashed hl (h ∷ hs) = do
    assert_linked (h ∷ hs)
    height ← new_height hl (prev_blockhash h.header)
    ok (number_from height (h ∷ hs))

  unfoldable pub order : HeaderList bitcoin → List BlockHeader → Panics (List (HeaderEntry bitcoin))
  unfolding order_hashed
  order hl new_headers = order_hashed hl (map hashed_header new_headers)

  -- `apply`
  unfoldable pub assert_consecutive : List (HeaderEntry bitcoin) → Panics (Unit {0})
  assert_consecutive [] = ok tt
  assert_consecutive (e ∷ []) = ok tt
  assert_consecutive (e ∷ e' ∷ es) = do
    assert (e.height + 1 == e'.height)
    assert (e.hash == prev_blockhash e'.header)
    assert_consecutive (e' ∷ es)

  unfoldable pub expected_prev_blockhash : HeaderList bitcoin → ℕ → Panics BlockHash
  expected_prev_blockhash hl height =
      if ltb 0 height
      then (do entry ← unwrap (get_elem? hl.headers (height - 1)); ok entry.hash)
      else ok all_zeros

  -- `Vec::split_off`: what is kept.
  unfoldable pub split_off : ℕ → List (HeaderEntry bitcoin) → Panics (List (HeaderEntry bitcoin))
  split_off at headers = if leb at (length headers) then ok (take at headers) else panic

  unfoldable pub push : HeaderList bitcoin → HeaderEntry bitcoin → Panics (HeaderList bitcoin)
  push hl e = do
    assert (e.height == length hl.headers)
    ok (record {
      headers = hl.headers ++ e ∷ [];
      heights = HashMap.insert e.hash e.height hl.heights;
      tip = e.hash;
    })

  unfoldable pub push_all :
      HeaderList bitcoin → List (HeaderEntry bitcoin) → Panics (HeaderList bitcoin)
  push_all hl [] = ok hl
  push_all hl (e ∷ es) = push hl e >>= λ hl'. push_all hl' es

  unfoldable pub replace_from :
      HeaderList bitcoin → ℕ → List (HeaderEntry bitcoin) → Panics (HeaderList bitcoin)
  replace_from hl height new_headers = do
    headers ← split_off height hl.headers
    push_all (record hl { headers = headers }) new_headers

  -- Entries that do not continue the chain at their height change nothing.
  unfoldable pub apply :
      HeaderList bitcoin → List (HeaderEntry bitcoin) → Panics (HeaderList bitcoin)
  apply hl [] = ok hl
  apply hl (e ∷ es) = do
    assert_consecutive (e ∷ es)
    expected ← expected_prev_blockhash hl e.height
    if prev_blockhash e.header == expected then replace_from hl e.height (e ∷ es) else ok hl

  -- `tip`: the stored tip is asserted to be the hash of the last entry.
  abbrev pub hash_or_zeros : Option (HeaderEntry bitcoin) → BlockHash
  hash_or_zeros none = all_zeros
  hash_or_zeros (some e) = e.hash

  unfoldable pub tip : HeaderList bitcoin → Panics BlockHash
  tip hl = do assert (hl.tip == hash_or_zeros (last? hl.headers)); ok hl.tip

  unfoldable pub is_empty : HeaderList bitcoin → Bool
  is_empty hl = length hl.headers == 0

module _ (bitcoin : Bitcoin) where
  unfoldable pub from_chain : List bitcoin.BlockHeader → Panics (HeaderList bitcoin)
  from_chain headers_chain = do entries ← order empty (reverse headers_chain); apply empty entries

  unfoldable pub new :
      HashMap BlockHash bitcoin.BlockHeader → BlockHash → Option (Panics (HeaderList bitcoin))
  new headers_map tip_hash =
      elim (chain_back bitcoin (length headers_map + 1) headers_map tip_hash []) [
        | none ↦ none
        | some chain ↦ some (chain >>= from_chain)
      ]

-- ===== src/BtcRpc/ChainState.antt =====
-- `ChainsState` of src/chainstate.rs: a Merkle proof is fetched from a node and checked against the header
-- that the light client has.
use sxn_spv.Common.{
  ℕ, ◌⊎◌, inl, inr, String, Option, none, some, List, [], ◌∷◌, ◌==◌, if◌then◌else◌,
}
use sxn_spv.Common.Outcome.{Outcome, Panics, ok, err, panic, ◌>>=◌, unwrap}
use sxn_spv.Common.Order.{bytes_ord}
use sxn_spv.Bitcoin.{Bitcoin, BlockHash}
use sxn_spv.Cache
use sxn_spv.BtcRpc.Types.{Json, Hashes, Handle, ResponseCache}

pub data MerkleProofParamChain : Type 0 where
  bit_coin doge_coin : MerkleProofParamChain

-- A transaction id is a number, as a block hash is.
pub record MerkleProofParam : Type 0 where
  pub txids : List ℕ
  pub blockhash : Option BlockHash
  pub chain : MerkleProofParamChain

-- Merkle blocks of the `bitcoin` crate. `extract_matches` returns the root of the partial tree, with the
-- transactions that it marks.
pub record Merkle (bitcoin : Bitcoin) : Type 1 where
  pub MerkleBlock : Type 0
  pub header : MerkleBlock → bitcoin.BlockHeader
  pub extract_matches : MerkleBlock → Option (ℕ × List ℕ)
  pub serialize : MerkleBlock → List ℕ

pub data ProofError : Type 0 where
  gettxoutproof_error doge_gettxoutproof_error : String → ProofError
  blockhash_mismatch : BlockHash → BlockHash → ProofError
  not_included : List ℕ → BlockHash → ProofError
  header_unreadable block_unknown : ProofError
  p2p_error : String → ProofError
  merkle_root_mismatch : ℕ → ℕ → BlockHash → ProofError

-- The clients of the two chains.
pub record ChainsState {bitcoin : Bitcoin} (merkle : Merkle bitcoin) : Type 0 where
  pub daemon : Option (MerkleProofParam → String ⊎ merkle.MerkleBlock)
  pub doge_daemon : Option (MerkleProofParam → String ⊎ merkle.MerkleBlock)
  pub handle : Option (Handle bitcoin)
  pub doge_handle : Option (Handle bitcoin)

module _ {bitcoin : Bitcoin} (json : Json bitcoin) (hashes : Hashes bitcoin)
    (merkle : Merkle bitcoin) (state : ChainsState merkle) where
  open bitcoin use {BlockHeader, block_hash, merkle_root}
  open merkle use {MerkleBlock, extract_matches, serialize}

  abbrev pub handle_of : MerkleProofParamChain → Option (Handle bitcoin)
  handle_of bit_coin = state.handle
  handle_of doge_coin = state.doge_handle

  abbrev pub check_blockhash : Option BlockHash → BlockHash → Outcome ProofError (Unit {0})
  check_blockhash none mb_blockhash = ok tt
  check_blockhash (some param_blockhash) mb_blockhash =
      if param_blockhash == mb_blockhash
      then ok tt
      else err (blockhash_mismatch param_blockhash mb_blockhash)

  abbrev pub txroot_of : List ℕ → BlockHash → Option (ℕ × List ℕ) → Outcome ProofError ℕ
  txroot_of txids mb_blockhash none = err (not_included txids mb_blockhash)
  txroot_of txids mb_blockhash (some (txroot, matches)) = ok txroot

  -- The header that was found, with the cache that holds it now.
  abbrev pub from_client :
      BlockHash
      → ResponseCache json
      → String ⊎ Option (ℕ × BlockHeader)
      → Outcome ProofError (BlockHeader × ResponseCache json)
  from_client hash cache (inl e) = err (p2p_error e)
  from_client hash cache (inr none) = err block_unknown
  from_client hash cache (inr (some (height, h))) =
      ok (h, Cache.insert cache (hashes.to_vec hash) (json.of_header h))

  abbrev pub from_cache :
      ResponseCache json
      → Option BlockHeader
      → Outcome ProofError (BlockHeader × ResponseCache json)
  from_cache cache none = err header_unreadable
  from_cache cache (some h) = ok (h, cache)

  unfoldable pub header_p2p :
      MerkleProofParamChain
      → BlockHash
      → ResponseCache json
      → Outcome ProofError (BlockHeader × ResponseCache json)
  header_p2p chain hash cache = elim (Cache.get cache (hashes.to_vec hash)) [
    | some block ↦ from_cache cache (json.to_header block)
    | none ↦ unwrap (handle_of chain) >>= λ h. from_client hash cache (h.get_block hash)
  ]

  -- The result, with the cache; an error after the header was found leaves it in the cache.
  abbrev pub check_root :
      MerkleBlock
      → ℕ
      → BlockHeader × ResponseCache json
      → Outcome ProofError (List ℕ) × ResponseCache json
  check_root mb txroot (h, cache) = (
    if txroot == merkle_root h
        then ok (serialize mb)
        else err (merkle_root_mismatch txroot (merkle_root h) (block_hash (merkle.header mb))),
    cache,
  )

  abbrev pub checked :
      ResponseCache json
      → MerkleBlock
      → ℕ
      → Outcome ProofError (BlockHeader × ResponseCache json)
      → Outcome ProofError (List ℕ) × ResponseCache json
  checked cache mb txroot (ok found) = check_root mb txroot found
  checked cache mb txroot (err e) = (err e, cache)
  checked cache mb txroot panic = (panic, cache)

  abbrev pub with_root :
      MerkleProofParam
      → ResponseCache json
      → MerkleBlock
      → Outcome ProofError ℕ
      → Outcome ProofError (List ℕ) × ResponseCache json
  with_root param cache mb (ok txroot) =
      checked cache mb txroot (header_p2p param.chain (block_hash (merkle.header mb)) cache)
  with_root param cache mb (err e) = (err e, cache)
  with_root param cache mb panic = (panic, cache)

  unfoldable pub verify_txid :
      MerkleBlock
      → MerkleProofParam
      → ResponseCache json
      → Outcome ProofError (List ℕ) × ResponseCache json
  verify_txid mb param cache =
      let mb_blockhash = block_hash (merkle.header mb) in
      with_root param cache mb (
        check_blockhash param.blockhash mb_blockhash >>= λ _.
        txroot_of param.txids mb_blockhash (extract_matches mb))

  abbrev verify_fetched :
      MerkleProofParam
      → ResponseCache json
      → (String → ProofError)
      → String ⊎ MerkleBlock
      → Outcome ProofError (List ℕ) × ResponseCache json
  verify_fetched param cache wrap (inl e) = (err (wrap e), cache)
  verify_fetched param cache wrap (inr mb) = verify_txid mb param cache

  abbrev fetched_from :
      MerkleProofParam
      → ResponseCache json
      → (String → ProofError)
      → Option (MerkleProofParam → String ⊎ MerkleBlock)
      → Outcome ProofError (List ℕ) × ResponseCache json
  fetched_from param cache wrap none = (panic, cache)
  fetched_from param cache wrap (some gettxoutproof) =
      verify_fetched param cache wrap (gettxoutproof param)

  abbrev fetch_by :
      MerkleProofParam
      → ResponseCache json
      → MerkleProofParamChain
      → Outcome ProofError (List ℕ) × ResponseCache json
  fetch_by param cache bit_coin = fetched_from param cache gettxoutproof_error state.daemon
  fetch_by param cache doge_coin =
      fetched_from param cache doge_gettxoutproof_error state.doge_daemon

  unfoldable pub fetch_proof_and_verify :
      MerkleProofParam → ResponseCache json → Outcome ProofError (List ℕ) × ResponseCache json
  fetch_proof_and_verify param cache = fetch_by param cache param.chain

  -- `verify_transaction` of src/btcrpc/proof.rs, from a transaction id that was read: whether there is an
  -- error, and the error.
  abbrev verdict : Outcome ProofError (List ℕ) → Panics (Option ProofError)
  verdict (ok bytes) = ok none
  verdict (err e) = ok (some e)
  verdict panic = panic

  unfoldable pub verify_transaction :
      ℕ
      → MerkleProofParamChain
      → ResponseCache json
      → Panics (Option ProofError) × ResponseCache json
  verify_transaction txid chain cache =
      let result =
        fetch_proof_and_verify (record { txids = txid ∷ []; blockhash = none; chain = chain })
          cache in
      (verdict result.0, result.1)

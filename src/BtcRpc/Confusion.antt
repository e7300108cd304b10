-- ===== src/BtcRpc/Confusion.antt =====
-- Where the handlers answer something else than what was asked for: the cache holds one value for several
-- uses, and a proof is not compared with the transaction that it is asked for.
use sxn_spv.Common.{ℕ, ◌≡◌, refl, ap, inr, false, Bool, Option, none, some, List, arith}
use sxn_spv.Common.Outcome.{Outcome, ok, err, panic, ◌>>=◌}
use sxn_spv.Common.Order.{bytes_ord}
use sxn_spv.Bitcoin.{Bitcoin, BlockHash}
use sxn_spv.Cache
use sxn_spv.Cache.Laws.{IsValid, get-insert_self}
use sxn_spv.BtcRpc.Types.{Json, Hashes, Handle, ResponseCache, to_be_bytes}
use sxn_spv.BtcRpc.Handlers.{Response, answer, getblockhash_of, getblockheader_of}
use sxn_spv.BtcRpc.ChainState.{
  MerkleProofParamChain, MerkleProofParam, Merkle, ProofError, header_unreadable, ChainsState,
  check_blockhash, txroot_of, with_root, header_p2p, verify_txid,
}

module _ {bitcoin : Bitcoin} (json : Json bitcoin) (hashes : Hashes bitcoin) where
  open bitcoin use {BlockHeader, block_hash}
  open json use {Value, of_string, of_header}

  getblockhash_new :
      (handle : Handle bitcoin) (height : ℕ) (header : BlockHeader) (i : Value)
      (cache : ResponseCache json)
      → Cache.get cache (to_be_bytes height) ≡ none
      → handle.get_block_by_height height ≡ inr (some header)
      → getblockhash_of json hashes handle height i cache ≡ (
        answer i (of_string (hashes.to_string (block_hash header))),
        Cache.insert cache (to_be_bytes height) (of_header header),
      )
  unfolding getblockhash_of
  getblockhash_new handle height header i cache new found = rw (new, found, getblockhash_of) refl

  getblockhash_old :
      (handle : Handle bitcoin) (height : ℕ) (v i : Value) (cache : ResponseCache json)
      → Cache.get cache (to_be_bytes height) ≡ some v
      → getblockhash_of json hashes handle height i cache ≡ (answer i v, cache)
  unfolding getblockhash_of
  getblockhash_old handle height v i cache old = rw (old, getblockhash_of) refl

  getblockheader_new :
      (handle : Handle bitcoin) (h : BlockHash) (n : ℕ) (header : BlockHeader) (i : Value)
      (cache : ResponseCache json)
      → Cache.get cache (hashes.to_vec h) ≡ none
      → handle.get_block h ≡ inr (some (n, header))
      → getblockheader_of json hashes handle false h i cache ≡ (
        answer i (of_string (hashes.header_hex header)),
        Cache.insert cache (hashes.to_vec h) (of_string (hashes.header_hex header)),
      )
  unfolding getblockheader_of
  getblockheader_new handle h n header i cache new found = rw (new, found, getblockheader_of) refl

  getblockheader_old :
      (handle : Handle bitcoin) (verbose : Bool) (h : BlockHash) (v i : Value)
      (cache : ResponseCache json)
      → Cache.get cache (hashes.to_vec h) ≡ some v
      → getblockheader_of json hashes handle verbose h i cache ≡ (answer i v, cache)
  unfolding getblockheader_of
  getblockheader_old handle verbose h v i cache old = rw (old, getblockheader_of) refl

  cached_unread :
      (merkle : Merkle bitcoin) (state : ChainsState merkle) (chain : MerkleProofParamChain)
      (h : BlockHash) (v : Value) (cache : ResponseCache json)
      → Cache.get cache (hashes.to_vec h) ≡ some v
      → json.to_header v ≡ none
      → header_p2p json hashes merkle state chain h cache ≡ err header_unreadable
  unfolding header_p2p
  cached_unread merkle state chain h v cache old unread = rw (old, header_p2p, unread) refl

  header_unread :
      (merkle : Merkle bitcoin) (state : ChainsState merkle) (mb : merkle.MerkleBlock)
      (param : MerkleProofParam) (root : ℕ) (matches : List ℕ) (v : Value)
      (cache : ResponseCache json)
      → merkle.extract_matches mb ≡ some (root, matches)
      → check_blockhash json hashes merkle state param.blockhash (block_hash (merkle.header mb))
        ≡ ok tt
      → Cache.get cache (hashes.to_vec (block_hash (merkle.header mb))) ≡ some v
      → json.to_header v ≡ none
      → verify_txid json hashes merkle state mb param cache ≡ (err header_unreadable, cache)
  unfolding verify_txid
  header_unread merkle state mb param root matches v cache extracted asked old unread =
      let h = block_hash (merkle.header mb) in
      let refused = cached_unread merkle state param.chain h v cache old unread in
      rw (asked, extracted, refused) refl

  -- Once a client has answered a height that is not in the cache with the hash of its block, the next call
  -- for that height, of the same chain or of the other, made on the cache that is left, is answered with the
  -- header of that block, whatever the client of that call holds, and leaves the cache as it is.
  pub getblockhash_twice :
      (first second : Handle bitcoin) (height : ℕ) (header : BlockHeader) (i j : Value)
      (cache : ResponseCache json)
      → IsValid cache
      → Cache.get cache (to_be_bytes height) ≡ none
      → first.get_block_by_height height ≡ inr (some header)
      → ((getblockhash_of json hashes first height i cache).0
          ≡ answer i (of_string (hashes.to_string (block_hash header))))
        × (getblockhash_of json hashes second height j
              (getblockhash_of json hashes first height i cache).1
            ≡ (answer j (of_header header), (getblockhash_of json hashes first height i cache).1))
  getblockhash_twice first second height header i j cache valid new found =
      let kept = get-insert_self cache (to_be_bytes height) (of_header header) valid in
      let stored = getblockhash_new first height header i cache new found in
      let again =
        getblockhash_old second height (of_header header) j
          (Cache.insert cache (to_be_bytes height) (of_header header)) kept in
      (ap (λ (r : Response json). r.0) stored, cc (stored, again))

  -- After a header that was not cached was asked for in hex, the next call for it, verbose or not, by any
  -- client, made on the cache that is left, is answered in hex. A proof in its block whose matches can be
  -- extracted, and which is asked for in this block or in none, is refused when it is checked on that cache,
  -- whatever its root is: the header that is cached cannot be read. Both leave the cache as it is.
  pub getblockheader_hex :
      (handle second : Handle bitcoin) (h : BlockHash) (n : ℕ) (header : BlockHeader) (i j : Value)
      (verbose : Bool) (cache : ResponseCache json) (merkle : Merkle bitcoin)
      (state : ChainsState merkle) (mb : merkle.MerkleBlock) (param : MerkleProofParam) (root : ℕ)
      (matches : List ℕ)
      → IsValid cache
      → Cache.get cache (hashes.to_vec h) ≡ none
      → handle.get_block h ≡ inr (some (n, header))
      → block_hash (merkle.header mb) ≡ h
      → merkle.extract_matches mb ≡ some (root, matches)
      → check_blockhash json hashes merkle state param.blockhash h ≡ ok tt
      → (getblockheader_of json hashes second verbose h j
            (getblockheader_of json hashes handle false h i cache).1
          ≡ (
            answer j (of_string (hashes.header_hex header)),
            (getblockheader_of json hashes handle false h i cache).1,
          ))
        × (verify_txid json hashes merkle state mb param
              (getblockheader_of json hashes handle false h i cache).1
            ≡ (err header_unreadable, (getblockheader_of json hashes handle false h i cache).1))
  getblockheader_hex handle second h n header i j verbose cache merkle state mb param root matches
        valid new found its_block extracted asked =
      let text = of_string (hashes.header_hex header) in
      let left = Cache.insert cache (hashes.to_vec h) text in
      let kept = get-insert_self cache (hashes.to_vec h) text valid in
      let stored = getblockheader_new handle h n header i cache new found in
      let again = getblockheader_old second verbose h text j left kept in
      let refused =
        header_unread merkle state mb param root matches text left extracted (cc (its_block, asked))
          (cc (its_block, kept)) (json.string_not_header (hashes.header_hex header)) in
      (cc (stored, again), cc (stored, refused))

module _ {bitcoin : Bitcoin} (json : Json bitcoin) (hashes : Hashes bitcoin)
    (merkle : Merkle bitcoin) (state : ChainsState merkle) where
  any_root :
      (mb : merkle.MerkleBlock) (param : MerkleProofParam) (others : List ℕ) (bytes : List ℕ)
      (cache cache' : ResponseCache json) (h : BlockHash) (asked : Outcome ProofError (Unit {0}))
      (extracted : Option (ℕ × List ℕ))
      → with_root json hashes merkle state param cache mb
          (asked >>= λ _. txroot_of json hashes merkle state param.txids h extracted)
        ≡ (ok bytes, cache')
      → with_root json hashes merkle state
          (record param { txids = others })
          cache
          mb
          (asked >>= λ _. txroot_of json hashes merkle state others h extracted)
        ≡ (ok bytes, cache')
  any_root mb param others bytes cache cache' h (err e) extracted done = done
  any_root mb param others bytes cache cache' h panic extracted done = done
  any_root mb param others bytes cache cache' h (ok tt) none done =
      absurd
        (ground (arith, ap (λ (r : Outcome ProofError (List ℕ) × ResponseCache json). r.0) done))
  any_root mb param others bytes cache cache' h (ok tt) (some (txroot, matches)) done = done

  -- Whether a proof is accepted, with what bytes and what cache, does not depend on the transactions that
  -- are asked for: a proof of any other transaction of the block is as good.
  pub verify_txid_any :
      (mb : merkle.MerkleBlock) (param : MerkleProofParam) (others : List ℕ) (bytes : List ℕ)
      (cache cache' : ResponseCache json)
      → verify_txid json hashes merkle state mb param cache ≡ (ok bytes, cache')
      → verify_txid json hashes merkle state mb (record param { txids = others }) cache
        ≡ (ok bytes, cache')
  unfolding verify_txid
  verify_txid_any mb param others bytes cache cache' done =
      let h = bitcoin.block_hash (merkle.header mb) in
      any_root mb param others bytes cache cache' h
        (check_blockhash json hashes merkle state param.blockhash h) (merkle.extract_matches mb)
        done

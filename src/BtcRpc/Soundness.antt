-- ===== src/BtcRpc/Soundness.antt =====
-- What a proof that `verify_txid` accepts has been checked against.
use sxn_spv.Common.{
  ℕ, ◌≡◌, refl, sym, ap, ◌∙◌, ◌⊎◌, inl, inr, Bool-cases, Option-cases, String, Option, none, some,
  List, ◌==◌, ==_iff, arith,
}
use mathlib.Core.Path.{subst}
use sxn_spv.Common.Outcome.{ok-injective, Outcome, ok, err, panic, ◌>>=◌}
use sxn_spv.Common.Order.{bytes_ord}
use sxn_spv.Bitcoin.{Bitcoin, BlockHash}
use sxn_spv.Cache
use sxn_spv.BtcRpc.Types.{Json, Hashes, Handle, ResponseCache}
use sxn_spv.BtcRpc.Faithful.{IsFaithful, Serves, insert_hash}
use sxn_spv.BtcRpc.ChainState.{
  MerkleProofParamChain, MerkleProofParam, Merkle, ProofError, ChainsState, handle_of,
  check_blockhash, txroot_of, from_client, from_cache, header_p2p, check_root, checked, with_root,
  verify_txid,
}

module _ {bitcoin : Bitcoin} (json : Json bitcoin) (hashes : Hashes bitcoin)
    (merkle : Merkle bitcoin) (state : ChainsState merkle)
    (Known : BlockHash → bitcoin.BlockHeader → Type 0) where
  open bitcoin use {BlockHeader, block_hash, merkle_root}
  open merkle use {MerkleBlock, extract_matches, serialize}

  abbrev Faithful : ResponseCache json → Type 0
  Faithful = IsFaithful json hashes Known

  -- Every client that the state has serves known headers.
  abbrev pub AllServe : Type 0
  AllServe =
      (chain : MerkleProofParamChain) (handle : Handle bitcoin)
      → handle_of json hashes merkle state chain ≡ some handle
      → Serves json hashes Known handle

  -- A header that was found is known, and the cache is faithful after it.
  abbrev Found : BlockHash → Outcome ProofError (BlockHeader × ResponseCache json) → Type 0
  Found h out =
      (x : BlockHeader) (cache' : ResponseCache json)
      → out ≡ ok (x, cache')
      → Known h x × Faithful cache'

  ok-Found :
      (h : BlockHash) (y : BlockHeader) (c : ResponseCache json)
      → Known h y
      → Faithful c
      → Found h (ok (y, c))
  ok-Found h y c known f x cache' done =
      let same : (y, c) ≡ (x, cache') = ok-injective done in
      (
        subst (λ (p : BlockHeader × ResponseCache json). Known h p.0) same known,
        subst (λ (p : BlockHeader × ResponseCache json). Faithful p.1) same f,
      )

  from_client-Found :
      (handle : Handle bitcoin) (h : BlockHash) (cache : ResponseCache json)
      (found : String ⊎ Option (ℕ × BlockHeader))
      → handle.get_block h ≡ found
      → Serves json hashes Known handle
      → Faithful cache
      → Found h (from_client json hashes merkle state h cache found)
  from_client-Found handle h cache (inl e) eq serves f x cache' done = absurd (ground arith)
  from_client-Found handle h cache (inr none) eq serves f x cache' done = absurd (ground arith)
  from_client-Found handle h cache (inr (some (n, y))) eq serves f x cache' done =
      let known = serves h n y eq in
      ok-Found h y (Cache.insert cache (hashes.to_vec h) (json.of_header y)) known
        (insert_hash json hashes Known cache h (json.of_header y) f (λ z reads.
          let same : y ≡ z = cc (json.header_read y, reads) in
          subst (λ (k : BlockHeader). Known h k) same known))
        x cache' done

  from_cache-Found :
      (h : BlockHash) (v : json.Value) (cache : ResponseCache json) (read : Option BlockHeader)
      → json.to_header v ≡ read
      → Cache.get cache (hashes.to_vec h) ≡ some v
      → Faithful cache
      → Found h (from_cache json hashes merkle state cache read)
  from_cache-Found h v cache none eq at f x cache' done = absurd (ground arith)
  from_cache-Found h v cache (some y) eq at f x cache' done =
      ok-Found h y cache (f.faithful h v y at eq) f x cache' done

  header_p2p-Found :
      (chain : MerkleProofParamChain) (h : BlockHash) (cache : ResponseCache json)
      → AllServe
      → Faithful cache
      → Found h (header_p2p json hashes merkle state chain h cache)
  unfolding header_p2p
  header_p2p-Found chain h cache serve f = elim (Option-cases (Cache.get cache (hashes.to_vec h))) [
    | inr (v, at) ↦ rw (at, header_p2p) (from_cache-Found h v cache (json.to_header v) refl at f)
    | inl new ↦ elim (Option-cases (handle_of json hashes merkle state chain)) [
      | inl off ↦ rw (new, off, header_p2p) (λ x cache' done. absurd (ground arith))
      | inr (handle, on) ↦
          rw (new, on, header_p2p)
            (from_client-Found handle h cache (handle.get_block h) refl (serve chain handle on) f)
    ]
  ]

  -- What is known of a block whose proof is accepted.
  pub record Checked (mb : MerkleBlock) (param : MerkleProofParam) (bytes : List ℕ) : Type 0 where
    pub header : BlockHeader
    pub known : Known (block_hash (merkle.header mb)) header
    pub matches : List ℕ
    pub root : extract_matches mb ≡ some (merkle_root header, matches)
    pub asked : (h : BlockHash) → param.blockhash ≡ some h → h ≡ block_hash (merkle.header mb)
    pub output : bytes ≡ serialize mb

  accepted_root :
      (mb : MerkleBlock) (txroot : ℕ) (x : BlockHeader) (bytes : List ℕ)
      (c cache' : ResponseCache json)
      → check_root json hashes merkle state mb txroot (x, c) ≡ (ok bytes, cache')
      → (txroot ≡ merkle_root x) × (bytes ≡ serialize mb) × (c ≡ cache')
  accepted_root mb txroot x bytes c cache' done = elim (Bool-cases (txroot == merkle_root x)) [
    | inl same ↦
        let out : ◌≡◌ {A = Outcome ProofError (List ℕ)} (ok (serialize mb)) (ok bytes) =
          ap (λ (r : Outcome ProofError (List ℕ) × ResponseCache json). r.0) (rw same at done) in
        (
          (==_iff txroot (merkle_root x)).0 same,
          sym (ok-injective out),
          ap (λ (r : Outcome ProofError (List ℕ) × ResponseCache json). r.1) done,
        )
    | inr other ↦ absurd (
        ground (
          arith,
          ap (λ (r : Outcome ProofError (List ℕ) × ResponseCache json). r.0) (rw other at done),
        ))
  ]

  checked_out :
      (mb : MerkleBlock) (param : MerkleProofParam) (bytes : List ℕ)
      (cache cache' : ResponseCache json) (txroot : ℕ) (matches : List ℕ)
      (out : Outcome ProofError (BlockHeader × ResponseCache json))
      → extract_matches mb ≡ some (txroot, matches)
      → ((h : BlockHash) → param.blockhash ≡ some h → h ≡ block_hash (merkle.header mb))
      → Found (block_hash (merkle.header mb)) out
      → checked json hashes merkle state cache mb txroot out ≡ (ok bytes, cache')
      → Checked mb param bytes × Faithful cache'
  checked_out mb param bytes cache cache' txroot matches (err e) extracted asked found done =
      absurd
        (ground (arith, ap (λ (r : Outcome ProofError (List ℕ) × ResponseCache json). r.0) done))
  checked_out mb param bytes cache cache' txroot matches panic extracted asked found done =
      absurd
        (ground (arith, ap (λ (r : Outcome ProofError (List ℕ) × ResponseCache json). r.0) done))
  checked_out mb param bytes cache cache' txroot matches (ok (x, c)) extracted asked found done =
      let (root, output, kept) = accepted_root mb txroot x bytes c cache' done in
      let (known, f) = found x c refl in
      (
        record {
          header = x;
          known = known;
          matches = matches;
          root = extracted ∙ ap (λ (r : ℕ). some (r, matches)) root;
          asked = asked;
          output = output;
        },
        subst Faithful kept f,
      )

  asked_for :
      (wanted : Option BlockHash) (h : BlockHash)
      → check_blockhash json hashes merkle state wanted h ≡ ok tt
      → (g : BlockHash) → wanted ≡ some g
      → g ≡ h
  asked_for none h done g w = absurd (ground arith)
  asked_for (some k) h done g w = ground arith

  verified :
      (mb : MerkleBlock) (param : MerkleProofParam) (bytes : List ℕ)
      (cache cache' : ResponseCache json) (asked : Outcome ProofError (Unit {0}))
      (extracted : Option (ℕ × List ℕ))
      → AllServe
      → Faithful cache
      → check_blockhash json hashes merkle state param.blockhash (block_hash (merkle.header mb))
        ≡ asked
      → extract_matches mb ≡ extracted
      → with_root json hashes merkle state param cache mb (
          asked >>= λ _.
          txroot_of json hashes merkle state param.txids (block_hash (merkle.header mb)) extracted)
        ≡ (ok bytes, cache')
      → Checked mb param bytes × Faithful cache'
  verified mb param bytes cache cache' (err e) extracted serve f a x done =
      absurd
        (ground (arith, ap (λ (r : Outcome ProofError (List ℕ) × ResponseCache json). r.0) done))
  verified mb param bytes cache cache' panic extracted serve f a x done =
      absurd
        (ground (arith, ap (λ (r : Outcome ProofError (List ℕ) × ResponseCache json). r.0) done))
  verified mb param bytes cache cache' (ok tt) none serve f a x done =
      absurd
        (ground (arith, ap (λ (r : Outcome ProofError (List ℕ) × ResponseCache json). r.0) done))
  verified mb param bytes cache cache' (ok tt) (some (txroot, matches)) serve f a x done =
      let h = block_hash (merkle.header mb) in
      checked_out mb param bytes cache cache' txroot matches
        (header_p2p json hashes merkle state param.chain h cache) x (asked_for param.blockhash h a)
        (header_p2p-Found param.chain h cache serve f) done

  -- From a faithful cache, an accepted proof has the root of a header that a client has under the hash of
  -- the proof's own header, and that hash is the one asked for, if one was; what is returned is the
  -- serialized proof, and the cache is faithful again.
  pub verify_txid_sound :
      (mb : MerkleBlock) (param : MerkleProofParam) (bytes : List ℕ)
      (cache cache' : ResponseCache json)
      → AllServe
      → Faithful cache
      → verify_txid json hashes merkle state mb param cache ≡ (ok bytes, cache')
      → Checked mb param bytes × Faithful cache'
  unfolding verify_txid
  verify_txid_sound mb param bytes cache cache' serve f done =
      verified mb param bytes cache cache'
        (check_blockhash json hashes merkle state param.blockhash (block_hash (merkle.header mb)))
        (extract_matches mb) serve f refl refl done

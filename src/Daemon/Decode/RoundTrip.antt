-- ===== src/Daemon/Decode/RoundTrip.antt =====
-- Headers and Merkle blocks are read back from their encodings, with or without the proof of work of a
-- parent chain between them.
use sxn_spv.Common.{
  ℕ, ◌≡◌, inl, inr, refl, sym, ap, ◌∙◌, String, Bool, true, false, some, List, [], ◌∷◌, ◌++◌,
  length, take, ltb, length-append, Bool-cases, if◌then◌else◌, arith,
}
use mathlib.Core.List.{append_assoc}
use sxn_spv.Common.Outcome.{ok}
use sxn_spv.Server.Network.{
  Network, bitcoin, testnet, testnet4, fractal, regtest, signet, dogecoin_mainnet, dogecoin_testnet,
  dogecoin_regtest,
}
use sxn_spv.Daemon.Decode.{
  Bytes, Decoder, Encodings, header_from_value, header_from_value_fractal_or_doge,
  header_of_network, skip_hashes, skip_branch, has_auxpow, skip_auxpow, doge_block_at,
  doge_merkleblock_from_value,
}

-- An encoder that a decoder reads back, whatever follows.
pub record Encoder {A : Type 0} (decode : Decoder A) : Type 0 where
  pub encode : A → Bytes
  pub read : (a : A) (rest : Bytes) → decode (encode a ++ rest) ≡ inr (a, rest)

-- The networks whose headers may carry a proof of work of another chain.
abbrev pub is_merge_mined : Network → Bool
is_merge_mined fractal = true
is_merge_mined dogecoin_mainnet = true
is_merge_mined dogecoin_testnet = true
is_merge_mined dogecoin_regtest = true
is_merge_mined _ = false

module _ {Value : Type 0} (encodings : Encodings Value) where
  open encodings use {Header, Tree, Transaction}

  -- The encodings of the `bitcoin` crate, as its decoders and `deserialize` read them.
  pub record Encoders : Type 0 where
    pub header : Encoder encodings.decode_header
    pub transaction : Encoder encodings.decode_transaction
    pub hash : Encoder encodings.decode_hash
    pub varint : Encoder encodings.decode_varint
    pub i32 : Encoder encodings.decode_i32
    pub tree : Encoder encodings.decode_tree
    pub header_length : (h : Header) → length (header.encode h) ≡ 80
    pub header_deserialized : (h : Header) → encodings.deserialize_header (header.encode h) ≡ some h

  -- A Merkle branch with its mask, and a proof of work of a parent chain.
  pub record Branch : Type 0 where
    pub hashes : List ℕ
    pub mask : ℕ

  pub record AuxPow : Type 0 where
    pub coinbase_tx : Transaction
    pub parent_blockhash : ℕ
    pub coinbase_branch : Branch
    pub blockchain_branch : Branch
    pub parent_block_header : Header

  module _ (encoders : Encoders) where
    open encoders use {header, transaction, hash, varint, i32, tree}

    take_append : (xs ys : Bytes) → take (length xs) (xs ++ ys) ≡ xs
    take_append [] ys = refl
    take_append (x ∷ xs) ys = ap (◌∷◌ x) (take_append xs ys)

    take_header : (h : Header) (tail : Bytes) → take 80 (header.encode h ++ tail) ≡ header.encode h
    take_header h tail =
        ap (λ (n : ℕ). take n (header.encode h ++ tail)) (sym (encoders.header_length h))
        ∙ take_append (header.encode h) tail

    header_alone :
        (value : Value) (text : String) (h : Header)
        → encodings.as_str value ≡ some text
        → encodings.hex_decode text ≡ some (header.encode h)
        → header_from_value encodings value ≡ ok h
    unfolding header_from_value
    header_alone value text h str hex = rw (str, hex, encoders.header_deserialized h) refl

    header_with_tail :
        (value : Value) (text : String) (h : Header) (tail : Bytes)
        → encodings.as_str value ≡ some text
        → encodings.hex_decode text ≡ some (header.encode h ++ tail)
        → header_from_value_fractal_or_doge encodings value ≡ ok h
    unfolding header_from_value_fractal_or_doge
    header_with_tail value text h tail str hex =
        let long : ltb (length (header.encode h ++ tail)) 80 ≡ false =
          ground (arith, length-append (header.encode h) tail, encoders.header_length h) in
        rw (str, hex, long, take_header h tail, encoders.header_deserialized h) refl

    abbrev encode_hashes : List ℕ → Bytes
    encode_hashes [] = []
    encode_hashes (h ∷ hs) = hash.encode h ++ encode_hashes hs

    abbrev pub encode_branch : Branch → Bytes
    encode_branch b = varint.encode (length b.hashes) ++ encode_hashes b.hashes ++ i32.encode b.mask

    abbrev pub encode_auxpow : AuxPow → Bytes
    encode_auxpow a =
        transaction.encode a.coinbase_tx
        ++ (hash.encode a.parent_blockhash
            ++ (encode_branch a.coinbase_branch
                ++ (encode_branch a.blockchain_branch ++ header.encode a.parent_block_header)))

    skip_hashes_lem :
        (hs : List ℕ) (rest : Bytes)
        → skip_hashes encodings (length hs) (encode_hashes hs ++ rest) ≡ ok rest
    unfolding skip_hashes
    skip_hashes_lem [] rest = refl
    skip_hashes_lem (h ∷ hs) rest =
        rw
          (
            append_assoc (hash.encode h) (encode_hashes hs) rest,
            hash.read h (encode_hashes hs ++ rest),
          )
          (skip_hashes_lem hs rest)

    skip_branch_lem :
        (b : Branch) (rest : Bytes) → skip_branch encodings (encode_branch b ++ rest) ≡ ok rest
    unfolding skip_branch
    skip_branch_lem b rest =
        let tail = encode_hashes b.hashes ++ i32.encode b.mask in
        rw
          (
            append_assoc (varint.encode (length b.hashes) ++ encode_hashes b.hashes)
                (i32.encode b.mask) rest,
            append_assoc (varint.encode (length b.hashes)) (encode_hashes b.hashes)
                (i32.encode b.mask ++ rest),
            varint.read (length b.hashes) (encode_hashes b.hashes ++ (i32.encode b.mask ++ rest)),
            skip_hashes_lem b.hashes (i32.encode b.mask ++ rest),
            i32.read b.mask rest,
          )
          refl

    skip_auxpow_lem :
        (a : AuxPow) (rest : Bytes) → skip_auxpow encodings (encode_auxpow a ++ rest) ≡ ok rest
    unfolding skip_auxpow
    skip_auxpow_lem a rest =
        let parent = header.encode a.parent_block_header in
        let second = encode_branch a.blockchain_branch in
        let first = encode_branch a.coinbase_branch in
        let prev = hash.encode a.parent_blockhash in
        rw
          (
            append_assoc (transaction.encode a.coinbase_tx) (prev ++ (first ++ (second ++ parent)))
                rest,
            append_assoc prev (first ++ (second ++ parent)) rest,
            append_assoc first (second ++ parent) rest,
            append_assoc second parent rest,
            transaction.read a.coinbase_tx (prev ++ (first ++ (second ++ (parent ++ rest)))),
            hash.read a.parent_blockhash (first ++ (second ++ (parent ++ rest))),
            skip_branch_lem a.coinbase_branch (second ++ (parent ++ rest)),
            skip_branch_lem a.blockchain_branch (parent ++ rest),
            header.read a.parent_block_header rest,
          )
          refl

    -- A Merkle block as a node of Dogecoin writes it: with the proof of work if the version of the header
    -- says so.
    abbrev pub encode_doge_block : Header → AuxPow → Tree → Bytes
    encode_doge_block h a txn =
        header.encode h
        ++ ((if has_auxpow encodings h then encode_auxpow a else []) ++ tree.encode txn)

    -- The Merkle block of Dogecoin that a text encodes is read back, header and tree, whatever proof of work
    -- stands between them where the version of the header announces one, with however many hashes in
    -- its branches, and whatever follows.
    pub doge_merkleblock_from_value_roundtrip :
        (value : Value) (text : String) (h : Header) (a : AuxPow) (txn : Tree) (rest : Bytes)
        → encodings.as_str value ≡ some text
        → encodings.hex_decode text ≡ some (encode_doge_block h a txn ++ rest)
        → doge_merkleblock_from_value encodings value ≡ ok (h, txn)
    unfolding doge_merkleblock_from_value doge_block_at
    doge_merkleblock_from_value_roundtrip value text h a txn rest str hex =
        elim (Bool-cases (has_auxpow encodings h)) [
          | inl merged ↦
              let aux = encode_auxpow a in
              let bytes : encode_doge_block h a txn ++ rest
                  ≡ header.encode h ++ (aux ++ (tree.encode txn ++ rest)) =
                rw merged (
                  append_assoc (header.encode h) (aux ++ tree.encode txn) rest
                  ∙ ap (λ (b : Bytes). header.encode h ++ b)
                      (append_assoc aux (tree.encode txn) rest)) in
              rw
                (
                  str,
                  hex,
                  bytes,
                  header.read h (aux ++ (tree.encode txn ++ rest)),
                  merged,
                  skip_auxpow_lem a (tree.encode txn ++ rest),
                  tree.read txn rest,
                )
                refl
          | inr plain ↦
              let bytes : encode_doge_block h a txn ++ rest
                  ≡ header.encode h ++ (tree.encode txn ++ rest) =
                rw plain (append_assoc (header.encode h) (tree.encode txn) rest) in
              rw
                (
                  str,
                  hex,
                  bytes,
                  header.read h (tree.encode txn ++ rest),
                  plain,
                  tree.read txn rest,
                )
                refl
        ]

    -- The header that a text encodes is read back, on every network. On the merge-mined networks more bytes
    -- may follow it, and are ignored; on the others there are none.
    pub header_of_network_roundtrip :
        (network : Network) (value : Value) (text : String) (h : Header) (tail : Bytes)
        → encodings.as_str value ≡ some text
        → encodings.hex_decode text
          ≡ some (if is_merge_mined network then header.encode h ++ tail else header.encode h)
        → header_of_network encodings network value ≡ ok h
    unfolding header_of_network
    header_of_network_roundtrip fractal value text h tail str hex =
        header_with_tail value text h tail str hex
    header_of_network_roundtrip dogecoin_mainnet value text h tail str hex =
        header_with_tail value text h tail str hex
    header_of_network_roundtrip dogecoin_testnet value text h tail str hex =
        header_with_tail value text h tail str hex
    header_of_network_roundtrip dogecoin_regtest value text h tail str hex =
        header_with_tail value text h tail str hex
    header_of_network_roundtrip bitcoin value text h tail str hex =
        header_alone value text h str hex
    header_of_network_roundtrip testnet value text h tail str hex =
        header_alone value text h str hex
    header_of_network_roundtrip testnet4 value text h tail str hex =
        header_alone value text h str hex
    header_of_network_roundtrip regtest value text h tail str hex =
        header_alone value text h str hex
    header_of_network_roundtrip signet value text h tail str hex = header_alone value text h str hex

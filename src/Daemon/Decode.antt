-- ===== src/Daemon/Decode.antt =====
-- The headers and Merkle blocks that src/daemon.rs reads from hex texts.
pub mod RoundTrip
use sxn_spv.Common.{
  ℕ, zero, suc, ◌/◌, ◌%◌, ◌≡◌, ◌⊎◌, inl, inr, String, Bool, true, false, not, Option, none, some,
  List, [], ◌∷◌, ◌++◌, length, take, ltb, ◌==◌, if◌then◌else◌,
}
use sxn_spv.Common.Outcome.{Outcome, ok, err, panic, ◌>>=◌, ◌>>◌, map_err}
use sxn_spv.Server.Network.{
  Network, bitcoin, testnet, testnet4, fractal, regtest, signet, dogecoin_mainnet, dogecoin_testnet,
  dogecoin_regtest,
}
use sxn_spv.BtcRpc.ChainState.{MerkleProofParamChain, bit_coin, doge_coin}

abbrev pub Bytes : Type 0
Bytes = List ℕ

-- `consensus_decode` of a type from a cursor: an error, as its text, or a value and the bytes after it.
abbrev pub Decoder : Type 0 → Type 0
Decoder A = Bytes → String ⊎ (A × Bytes)

-- What the `bitcoin` and `hex` crates do for the texts of the node. The version of a header is the number
-- that its 32 bits spell.
pub record Encodings (Value : Type 0) : Type 1 where
  pub Header : Type 0
  pub Tree : Type 0
  pub Transaction : Type 0
  pub as_str : Value → Option String
  pub hex_decode : String → Option Bytes
  pub deserialize_header : Bytes → Option Header
  pub deserialize_block : Bytes → Option (Header × Tree)
  pub version : Header → ℕ
  pub decode_header : Decoder Header
  pub decode_transaction : Decoder Transaction
  pub decode_hash : Decoder ℕ
  pub decode_varint : Decoder ℕ
  pub decode_i32 : Decoder ℕ
  pub decode_tree : Decoder Tree

module _ {Value : Type 0} (encodings : Encodings Value) where
  open encodings use {
    Header, Tree, Transaction, as_str, hex_decode, deserialize_header, deserialize_block, version,
    decode_header, decode_transaction, decode_hash, decode_varint, decode_i32, decode_tree,
  }

  pub data DecodeError : Type 0 where
    non_string_header non_string_merkleblock : Value → DecodeError
    non_hex_header non_hex_merkleblock : DecodeError
    header_too_short : DecodeError
    header_unparsed merkleblock_unparsed : String → DecodeError
    decode_error : String → DecodeError

  -- `MerkleBlock`
  abbrev pub MerkleBlock : Type 0
  MerkleBlock = Header × Tree

  abbrev pub or_error {ℓ} : {A : Type ℓ} → DecodeError → Option A → Outcome DecodeError A
  or_error e none = err e
  or_error e (some a) = ok a

  unfoldable pub header_from_value : Value → Outcome DecodeError Header
  header_from_value value = do
    header_hex ← or_error (non_string_header value) (as_str value)
    header_bytes ← or_error non_hex_header (hex_decode header_hex)
    or_error (header_unparsed header_hex) (deserialize_header header_bytes)

  -- The check that there are 80 bytes, and the header of the first 80.
  abbrev long_enough : Option Header → String → Bool → Outcome DecodeError Header
  long_enough parsed header_hex true = err header_too_short
  long_enough parsed header_hex false = or_error (header_unparsed header_hex) parsed

  unfoldable pub header_from_value_fractal_or_doge : Value → Outcome DecodeError Header
  header_from_value_fractal_or_doge value = do
    header_hex ← or_error (non_string_header value) (as_str value)
    header_bytes ← or_error non_hex_header (hex_decode header_hex)
    long_enough (deserialize_header (take 80 header_bytes)) header_hex
        (ltb (length header_bytes) 80)

  -- By the network of the client.
  unfoldable pub header_of_network : Network → Value → Outcome DecodeError Header
  header_of_network fractal value = header_from_value_fractal_or_doge value
  header_of_network dogecoin_mainnet value = header_from_value_fractal_or_doge value
  header_of_network dogecoin_testnet value = header_from_value_fractal_or_doge value
  header_of_network dogecoin_regtest value = header_from_value_fractal_or_doge value
  header_of_network bitcoin value = header_from_value value
  header_of_network testnet value = header_from_value value
  header_of_network testnet4 value = header_from_value value
  header_of_network regtest value = header_from_value value
  header_of_network signet value = header_from_value value

  unfoldable pub merkleblock_from_value : Value → Outcome DecodeError MerkleBlock
  merkleblock_from_value value = do
    mb_hex ← or_error (non_string_merkleblock value) (as_str value)
    mb_bytes ← or_error non_hex_merkleblock (hex_decode mb_hex)
    or_error (merkleblock_unparsed mb_hex) (deserialize_block mb_bytes)

  abbrev pub decoded : {A : Type 0} → String ⊎ A → Outcome DecodeError A
  decoded (inl e) = err (decode_error e)
  decoded (inr a) = ok a

  -- The hashes of a Merkle branch, which are read and dropped.
  unfoldable pub skip_hashes : ℕ → Bytes → Outcome DecodeError Bytes
  skip_hashes zero cursor = ok cursor
  skip_hashes (suc n) cursor = decoded (decode_hash cursor) >>= λ r. skip_hashes n r.1

  -- A Merkle branch with its number of hashes before, and its mask behind.
  unfoldable pub skip_branch : Bytes → Outcome DecodeError Bytes
  skip_branch cursor = decoded (decode_varint cursor) >>= λ n.
      skip_hashes n.0 n.1 >>= λ c. decoded (decode_i32 c) >>= λ mask. ok mask.1

  -- `version.to_consensus() & (1 << 8) != 0`
  abbrev pub has_auxpow : Header → Bool
  has_auxpow header = not (version header / 256 % 2 == 0)

  -- The proof of work of the parent chain.
  unfoldable pub skip_auxpow : Bytes → Outcome DecodeError Bytes
  skip_auxpow cursor = decoded (decode_transaction cursor) >>= λ coinbase.
      decoded (decode_hash coinbase.1) >>= λ parent_blockhash.
      skip_branch parent_blockhash.1 >>= λ c. skip_branch c >>= λ c'.
      decoded (decode_header c') >>= λ parent_block_header. ok parent_block_header.1

  unfoldable pub doge_block_at : Bytes → Outcome DecodeError MerkleBlock
  doge_block_at cursor = decoded (decode_header cursor) >>= λ h.
      (if has_auxpow h.0 then skip_auxpow h.1 else ok h.1) >>= λ c.
      decoded (decode_tree c) >>= λ txn. ok (h.0, txn.0)

  unfoldable pub doge_merkleblock_from_value : Value → Outcome DecodeError MerkleBlock
  doge_merkleblock_from_value value = do
    mb_hex ← or_error (non_string_merkleblock value) (as_str value)
    mb_bytes ← or_error non_hex_merkleblock (hex_decode mb_hex)
    doge_block_at mb_bytes

  -- By the chain of the request.
  unfoldable pub merkleblock_of_chain :
      MerkleProofParamChain → Value → Outcome DecodeError MerkleBlock
  merkleblock_of_chain bit_coin value = merkleblock_from_value value
  merkleblock_of_chain doge_coin value = doge_merkleblock_from_value value

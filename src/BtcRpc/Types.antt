-- ===== src/BtcRpc/Types.antt =====
-- What the handlers of src/btcrpc and src/chainstate.rs take from libraries (JSON values, the nakamoto
-- light client, Merkle blocks), and the responses and errors.
use sxn_spv.Common.{
  ℕ, zero, suc, ◌/◌, ◌%◌, ◌^◌, ◌≡◌, ◌⊎◌, String, Bool, Option, none, some, List, [], ◌∷◌, length,
}
use sxn_spv.Bitcoin.{Bitcoin, BlockHash}
use sxn_spv.Cache.{SimpleCache}

-- JSON values, with what is asked of them. A header is written as an object, to which a height can be
-- added; it is read back from either, and not from a string.
pub record Json (bitcoin : Bitcoin) : Type 1 where
  pub Value : Type 0
  pub as_bool : Value → Option Bool
  pub as_u64 : Value → Option ℕ
  pub as_str : Value → Option String
  pub as_array : Value → Option (List Value)
  pub of_string : String → Value
  pub of_header : bitcoin.BlockHeader → Value
  pub with_height : ℕ → Value → Value
  pub to_header : Value → Option bitcoin.BlockHeader
  pub header_read : (h : bitcoin.BlockHeader) → to_header (of_header h) ≡ some h
  pub height_ignored :
      (n : ℕ) (h : bitcoin.BlockHeader) → to_header (with_height n (of_header h)) ≡ some h
  pub string_not_header : (s : String) → to_header (of_string s) ≡ none

-- A block hash as text and as bytes, and the hex text of a serialized header.
pub record Hashes (bitcoin : Bitcoin) : Type 0 where
  pub from_str : String → Option BlockHash
  pub to_string : BlockHash → String
  pub header_hex : bitcoin.BlockHeader → String
  pub to_vec : BlockHash → List ℕ
  pub to_vec_injective : (g h : BlockHash) → to_vec g ≡ to_vec h → g ≡ h
  pub to_vec_length : (h : BlockHash) → length (to_vec h) ≡ 32

-- The light client of one chain: each call returns an error, as its text, or a value.
pub record Handle (bitcoin : Bitcoin) : Type 0 where
  pub get_tip : String ⊎ (ℕ × bitcoin.BlockHeader)
  pub get_block : BlockHash → String ⊎ Option (ℕ × bitcoin.BlockHeader)
  pub get_block_by_height : ℕ → String ⊎ Option bitcoin.BlockHeader

pub data RpcError : Type 0 where
  invalid_request : RpcError
  array_required method_unsupported : RpcError
  numbers_of_params params_type : RpcError
  blockhash_error header_missing : RpcError
  height_missing : ℕ → RpcError
  client_error : String → RpcError

pub record BtcResp {bitcoin : Bitcoin} (json : Json bitcoin) : Type 0 where
  pub error : Option RpcError
  pub id : json.Value
  pub result : Option json.Value

-- The cache of responses, by the bytes of a hash or of a height.
abbrev pub ResponseCache : {bitcoin : Bitcoin} → Json bitcoin → Type 0
ResponseCache json = SimpleCache (List ℕ) json.Value

-- `u64::to_be_bytes`: the last `n` bytes of a number, the highest first.
unfoldable pub be_bytes : ℕ → ℕ → List ℕ
be_bytes zero x = []
be_bytes (suc n) x = ((x / 256 ^ n) % 256) ∷ be_bytes n x

abbrev pub to_be_bytes : ℕ → List ℕ
to_be_bytes = be_bytes 8

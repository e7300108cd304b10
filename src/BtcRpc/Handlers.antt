-- ===== src/BtcRpc/Handlers.antt =====
-- The handlers of src/btcrpc/mod.rs for the three methods. Each returns its response and the cache.
use sxn_spv.Common.{ℕ, ◌⊎◌, inl, inr, String, Bool, true, false, Option, none, some, List, [], ◌∷◌}
use sxn_spv.Common.Order.{bytes_ord}
use sxn_spv.Bitcoin.{Bitcoin, BlockHash}
use sxn_spv.Cache
use sxn_spv.Cache.{SimpleCache}
use sxn_spv.BtcRpc.Types.{
  Json, Hashes, Handle, RpcError, numbers_of_params, params_type, blockhash_error, header_missing,
  height_missing, client_error, BtcResp, ResponseCache, to_be_bytes,
}

abbrev pub Response : {bitcoin : Bitcoin} → Json bitcoin → Type 0
Response json = BtcResp json × ResponseCache json

module _ {bitcoin : Bitcoin} {json : Json bitcoin} where
  open json use {Value}

  abbrev pub create_btc_response : Option RpcError → Value → Option Value → BtcResp json
  create_btc_response e i r = record { error = e; id = i; result = r }

  abbrev pub refuse : Value → RpcError → BtcResp json
  refuse i e = create_btc_response (some e) i none

  abbrev pub answer : Value → Value → BtcResp json
  answer i v = create_btc_response none i (some v)

-- `unwrap_or(true)`
abbrev pub or_true : Option Bool → Bool
or_true none = true
or_true (some b) = b

module _ {bitcoin : Bitcoin} (json : Json bitcoin) (hashes : Hashes bitcoin) where
  open bitcoin use {BlockHeader}
  open json use {Value, of_string, of_header, with_height}

  -- The result for a header: an object with the height, or the hex text.
  abbrev pub header_value : Bool → ℕ → BlockHeader → Value
  header_value true height header = with_height height (of_header header)
  header_value false height header = of_string (hashes.header_hex header)

module _ {bitcoin : Bitcoin} (hashes : Hashes bitcoin) where
  abbrev pub parsed_hash : Option String → Option (Option BlockHash)
  parsed_hash none = none
  parsed_hash (some s) = some (hashes.from_str s)

module _ {bitcoin : Bitcoin} (json : Json bitcoin) (hashes : Hashes bitcoin)
    (handle : Handle bitcoin) where
  open bitcoin use {BlockHeader, block_hash}
  open json use {Value, as_bool, as_str, as_u64, of_string, of_header}

  abbrev pub tip_response : Value → String ⊎ (ℕ × BlockHeader) → BtcResp json
  tip_response i (inl e) = refuse i (client_error e)
  tip_response i (inr (height, header)) =
      answer i (of_string (hashes.to_string (block_hash header)))

  unfoldable pub handle_getbestblockhash : List Value → Value → BtcResp json
  handle_getbestblockhash [] i = tip_response i handle.get_tip
  handle_getbestblockhash (p ∷ params) i = refuse i numbers_of_params

  abbrev pub found_header :
      Bool
      → BlockHash
      → Value
      → ResponseCache json
      → String ⊎ Option (ℕ × BlockHeader)
      → Response json
  found_header verbose hash i cache (inl e) = (refuse i (client_error e), cache)
  found_header verbose hash i cache (inr none) = (refuse i header_missing, cache)
  found_header verbose hash i cache (inr (some (height, header))) = (
    answer i (header_value json hashes verbose height header),
    Cache.insert cache (hashes.to_vec hash) (header_value json hashes verbose height header),
  )

  -- A cached value is the answer as it stands.
  unfoldable pub getblockheader_of : Bool → BlockHash → Value → ResponseCache json → Response json
  getblockheader_of verbose hash i cache = elim (Cache.get cache (hashes.to_vec hash)) [
    | some header ↦ (answer i header, cache)
    | none ↦ found_header verbose hash i cache (handle.get_block hash)
  ]

  unfoldable pub getblockheader_by : Bool → Value → Value → ResponseCache json → Response json
  unfolding getblockheader_of
  getblockheader_by verbose hash_value i cache = elim (parsed_hash hashes (as_str hash_value)) [
    | none ↦ (refuse i params_type, cache)
    | some none ↦ (refuse i blockhash_error, cache)
    | some (some hash) ↦ getblockheader_of verbose hash i cache
  ]

  unfoldable pub handle_getblockheader : List Value → Value → ResponseCache json → Response json
  unfolding getblockheader_by
  handle_getblockheader [] i cache = (refuse i numbers_of_params, cache)
  handle_getblockheader (hash ∷ []) i cache = getblockheader_by true hash i cache
  handle_getblockheader (hash ∷ verbose ∷ []) i cache =
      getblockheader_by (or_true (as_bool verbose)) hash i cache
  handle_getblockheader (hash ∷ verbose ∷ p ∷ params) i cache = (refuse i numbers_of_params, cache)

  abbrev pub found_hash :
      ℕ → Value → ResponseCache json → String ⊎ Option BlockHeader → Response json
  found_hash height i cache (inl e) = (refuse i (client_error e), cache)
  found_hash height i cache (inr none) = (refuse i (height_missing height), cache)
  found_hash height i cache (inr (some header)) = (
    answer i (of_string (hashes.to_string (block_hash header))),
    Cache.insert cache (to_be_bytes height) (of_header header),
  )

  -- What is cached is the header, what is answered is its hash.
  unfoldable pub getblockhash_of : ℕ → Value → ResponseCache json → Response json
  getblockhash_of height i cache = elim (Cache.get cache (to_be_bytes height)) [
    | some header ↦ (answer i header, cache)
    | none ↦ found_hash height i cache (handle.get_block_by_height height)
  ]

  unfoldable pub handle_getblockhash : List Value → Value → ResponseCache json → Response json
  unfolding getblockhash_of
  handle_getblockhash (p ∷ []) i cache = elim (as_u64 p) [
    | none ↦ (refuse i params_type, cache)
    | some height ↦ getblockhash_of height i cache
  ]
  handle_getblockhash [] i cache = (refuse i numbers_of_params, cache)
  handle_getblockhash (p ∷ q ∷ params) i cache = (refuse i numbers_of_params, cache)

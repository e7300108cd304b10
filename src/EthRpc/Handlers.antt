-- ===== src/EthRpc/Handlers.antt =====
-- The handlers of src/ethrpc/mod.rs for the Ethereum client. Each returns its response, and the last the
-- cache as well.
use Prim.Native.String.{◌++◌}
use text.Mathlib.Text.{◌==◌}
use sxn_spv.Common.{ℕ, ◌⊎◌, inl, inr, String, Option, none, some, List, [], ◌∷◌, if◌then◌else◌}
use sxn_spv.Common.Order.{bytes_ord}
use sxn_spv.Cache
use sxn_spv.JsonRpc.{Json, ResponseCache}
use sxn_spv.EthRpc.Types.{
  Alloy, Client, EthReq, EthResp, create_eth_response, get_logs_method, get_block_by_number_method,
  get_transaction_receipt_method, IntErrorKind, int_error_text, parse_u64,
}

module _ {json : Json} where
  abbrev pub refuse : json.Value → String → EthResp json
  refuse i e = create_eth_response (some e) i none

  abbrev pub answer : json.Value → json.Value → EthResp json
  answer i v = create_eth_response none i (some v)

module _ {json : Json} (alloy : Alloy json) (client : Client alloy) where
  open json use {Value, as_str, as_array}
  open alloy use {B256, Filter, deserialize, from_hex, to_vec}
  open client use {Logs, Block, Receipt, of_logs, of_block, of_receipt}

  abbrev pub Response : Type 0
  Response = EthResp json × ResponseCache json

  abbrev pub logs_response : Value → String ⊎ Logs → EthResp json
  logs_response i (inr logs) = answer i (of_logs logs)
  logs_response i (inl e) = refuse i e

  abbrev pub filtered : Value → String ⊎ Filter → EthResp json
  filtered i (inr filter) = logs_response i (client.get_logs filter)
  filtered i (inl e) = refuse i ("Filter deserialize error " ++ e)

  unfoldable pub handle_get_logs : List Value → Value → EthResp json
  handle_get_logs (p ∷ []) i = filtered i (deserialize p)
  handle_get_logs [] i = refuse i "invalid numbers of params"
  handle_get_logs (p ∷ q ∷ params) i = refuse i "invalid numbers of params"

  abbrev pub block_response : Value → String ⊎ Option Block → EthResp json
  block_response i (inr (some block)) = answer i (of_block block)
  block_response i (inr none) = create_eth_response none i none
  block_response i (inl e) = refuse i e

  abbrev pub numbered : Value → IntErrorKind ⊎ ℕ → EthResp json
  numbered i (inr num) = block_response i (client.get_block_by_number num)
  numbered i (inl e) = refuse i ("error number " ++ int_error_text e)

  abbrev pub block_at : Value → Option String → EthResp json
  block_at i none = refuse i "params type wrong, int is required"
  block_at i (some height) = numbered i (parse_u64 height)

  unfoldable pub handle_get_block_by_number : List Value → Value → EthResp json
  handle_get_block_by_number (p ∷ []) i = block_at i (as_str p)
  handle_get_block_by_number [] i = refuse i "Invalid numbers of params"
  handle_get_block_by_number (p ∷ q ∷ params) i = refuse i "Invalid numbers of params"

  abbrev pub receipt_response :
      B256 → Value → ResponseCache json → String ⊎ Option Receipt → Response
  receipt_response txhash i cache (inr (some receipt)) =
      (answer i (of_receipt receipt), Cache.insert cache (to_vec txhash) (of_receipt receipt))
  receipt_response txhash i cache (inr none) = (create_eth_response none i none, cache)
  receipt_response txhash i cache (inl e) = (refuse i e, cache)

  unfoldable pub receipt_of : B256 → Value → ResponseCache json → Response
  receipt_of txhash i cache = elim (Cache.get cache (to_vec txhash)) [
    | some receipt ↦ (answer i receipt, cache)
    | none ↦ receipt_response txhash i cache (client.get_transaction_receipt txhash)
  ]

  unfoldable pub receipt_at : Value → ResponseCache json → Option String → Response
  unfolding receipt_of
  receipt_at i cache none = (refuse i "error TX hash", cache)
  receipt_at i cache (some hex) = elim (from_hex hex) [
    | inr txhash ↦ receipt_of txhash i cache
    | inl e ↦ (refuse i ("H256 deserialize error " ++ e), cache)
  ]

  unfoldable pub handle_get_transaction_receipt : List Value → Value → ResponseCache json → Response
  unfolding receipt_at
  handle_get_transaction_receipt (p ∷ []) i cache = receipt_at i cache (as_str p)
  handle_get_transaction_receipt [] i cache = (refuse i "Invalid numbers of params", cache)
  handle_get_transaction_receipt (p ∷ q ∷ params) i cache =
      (refuse i "Invalid numbers of params", cache)

  unfoldable pub run_method : String → List Value → Value → ResponseCache json → Response
  unfolding handle_get_logs handle_get_block_by_number handle_get_transaction_receipt
  run_method method params i cache =
      if method == get_logs_method
      then (handle_get_logs params i, cache)
      else if method == get_block_by_number_method
      then (handle_get_block_by_number params i, cache)
      else if method == get_transaction_receipt_method
      then handle_get_transaction_receipt params i cache
      else (refuse i ("method " ++ method ++ " not support"), cache)

  unfoldable pub handle_request : EthReq json → ResponseCache json → Response
  unfolding run_method
  handle_request req cache = elim (as_array req.params) [
    | some params ↦ run_method req.method params req.id cache
    | none ↦ (refuse req.id "Invalid params type, an array is required", cache)
  ]

  -- The requests of `eth` in their order: a request is handled when its turn comes.
  unfoldable pub handle_requests :
      List (EthReq json) → ResponseCache json → List (EthResp json) × ResponseCache json
  unfolding handle_request
  handle_requests [] cache = ([], cache)
  handle_requests (req ∷ payload) cache =
      let (resp, cache') = handle_request req cache in
      let (resps, cache'') = handle_requests payload cache' in (resp ∷ resps, cache'')

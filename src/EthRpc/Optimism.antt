-- ===== src/EthRpc/Optimism.antt =====
-- The handlers of src/ethrpc/mod.rs for the Optimism client: written a second time in the source, over a
-- client with the same calls.
use Prim.Native.String.{◌++◌}
use text.Mathlib.Text.{◌==◌}
use sxn_spv.Common.{
  ◌≡◌, refl, inl, inr, String, Option, none, some, List, [], ◌∷◌, Option-cases, ⊎-cases,
  if◌then◌else◌,
}
use sxn_spv.Common.Order.{bytes_ord}
use sxn_spv.Cache
use sxn_spv.JsonRpc.{Json, ResponseCache}
use sxn_spv.EthRpc.Types.{
  Alloy, Client, EthReq, EthResp, get_logs_method, get_block_by_number_method,
  get_transaction_receipt_method,
}
use sxn_spv.EthRpc.Handlers.{
  Response, refuse, answer, filtered, block_at, receipt_response, handle_get_logs,
  handle_get_block_by_number, handle_get_transaction_receipt, receipt_of, receipt_at, run_method,
  handle_request,
}

module _ {json : Json} (alloy : Alloy json) (client : Client alloy) where
  open json use {Value, as_str, as_array}
  open alloy use {B256, deserialize, from_hex, to_vec}

  unfoldable pub handle_get_logs_op : List Value → Value → EthResp json
  handle_get_logs_op (p ∷ []) i = filtered alloy client i (deserialize p)
  handle_get_logs_op [] i = refuse i "invalid numbers of params"
  handle_get_logs_op (p ∷ q ∷ params) i = refuse i "invalid numbers of params"

  unfoldable pub handle_get_block_by_number_op : List Value → Value → EthResp json
  handle_get_block_by_number_op (p ∷ []) i = block_at alloy client i (as_str p)
  handle_get_block_by_number_op [] i = refuse i "Invalid numbers of params"
  handle_get_block_by_number_op (p ∷ q ∷ params) i = refuse i "Invalid numbers of params"

  unfoldable pub receipt_of_op : B256 → Value → ResponseCache json → Response alloy client
  receipt_of_op txhash i cache = elim (Cache.get cache (to_vec txhash)) [
    | some receipt ↦ (answer i receipt, cache)
    | none ↦ receipt_response alloy client txhash i cache (client.get_transaction_receipt txhash)
  ]

  unfoldable pub receipt_at_op : Value → ResponseCache json → Option String → Response alloy client
  unfolding receipt_of_op
  receipt_at_op i cache none = (refuse i "error TX hash", cache)
  receipt_at_op i cache (some hex) = elim (from_hex hex) [
    | inr txhash ↦ receipt_of_op txhash i cache
    | inl e ↦ (refuse i ("H256 deserialize error " ++ e), cache)
  ]

  unfoldable pub handle_get_transaction_receipt_op :
      List Value → Value → ResponseCache json → Response alloy client
  unfolding receipt_at_op
  handle_get_transaction_receipt_op (p ∷ []) i cache = receipt_at_op i cache (as_str p)
  handle_get_transaction_receipt_op [] i cache = (refuse i "Invalid numbers of params", cache)
  handle_get_transaction_receipt_op (p ∷ q ∷ params) i cache =
      (refuse i "Invalid numbers of params", cache)

  unfoldable pub run_method_op :
      String → List Value → Value → ResponseCache json → Response alloy client
  unfolding handle_get_logs_op handle_get_block_by_number_op handle_get_transaction_receipt_op
  run_method_op method params i cache =
      if method == get_logs_method
      then (handle_get_logs_op params i, cache)
      else if method == get_block_by_number_method
      then (handle_get_block_by_number_op params i, cache)
      else if method == get_transaction_receipt_method
      then handle_get_transaction_receipt_op params i cache
      else (refuse i ("method " ++ method ++ " not support"), cache)

  unfoldable pub handle_request_op : EthReq json → ResponseCache json → Response alloy client
  unfolding run_method_op
  handle_request_op req cache = elim (as_array req.params) [
    | some params ↦ run_method_op req.method params req.id cache
    | none ↦ (refuse req.id "Invalid params type, an array is required", cache)
  ]

  hashed_op :
      (i : Value) (cache : ResponseCache json) (hex : String)
      → receipt_at_op i cache (some hex) ≡ receipt_at alloy client i cache (some hex)
  unfolding receipt_at_op receipt_at
  hashed_op i cache hex = elim (⊎-cases (from_hex hex)) [
    | inl (e, eq) ↦ rw (eq, receipt_at_op, receipt_at) refl
    | inr (h, eq) ↦ rw (eq, receipt_at_op, receipt_at, receipt_of_op, receipt_of) refl
  ]

  text_op :
      (i : Value) (cache : ResponseCache json) (text : Option String)
      → receipt_at_op i cache text ≡ receipt_at alloy client i cache text
  unfolding receipt_at_op receipt_at
  text_op i cache none = refl
  text_op i cache (some hex) = hashed_op i cache hex

  logs_op :
      (params : List Value) (i : Value)
      → handle_get_logs_op params i ≡ handle_get_logs alloy client params i
  unfolding handle_get_logs_op handle_get_logs
  logs_op [] i = refl
  logs_op (p ∷ []) i = refl
  logs_op (p ∷ q ∷ params) i = refl

  block_op :
      (params : List Value) (i : Value)
      → handle_get_block_by_number_op params i ≡ handle_get_block_by_number alloy client params i
  unfolding handle_get_block_by_number_op handle_get_block_by_number
  block_op [] i = refl
  block_op (p ∷ []) i = refl
  block_op (p ∷ q ∷ params) i = refl

  receipt_op :
      (params : List Value) (i : Value) (cache : ResponseCache json)
      → handle_get_transaction_receipt_op params i cache
        ≡ handle_get_transaction_receipt alloy client params i cache
  unfolding handle_get_transaction_receipt_op handle_get_transaction_receipt
  receipt_op [] i cache = refl
  receipt_op (p ∷ []) i cache = text_op i cache (as_str p)
  receipt_op (p ∷ q ∷ params) i cache = refl

  run_op :
      (method : String) (params : List Value) (i : Value) (cache : ResponseCache json)
      → run_method_op method params i cache ≡ run_method alloy client method params i cache
  unfolding run_method_op run_method
  run_op method params i cache =
      rw (run_method_op, run_method, logs_op params i, block_op params i, receipt_op params i cache)
        refl

  -- The two copies do the same over the same client.
  pub handle_request-op :
      (req : EthReq json) (cache : ResponseCache json)
      → handle_request_op req cache ≡ handle_request alloy client req cache
  unfolding handle_request_op handle_request
  handle_request-op req cache = elim (Option-cases (as_array req.params)) [
    | inl eq ↦ rw (eq, handle_request_op, handle_request) refl
    | inr (params, eq) ↦
        rw (eq, handle_request_op, handle_request) (run_op req.method params req.id cache)
  ]

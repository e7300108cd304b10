-- ===== src/EthRpc/Uncached.antt =====
-- A server for the requests of src/ethrpc/mod.rs that has no cache: it reads a call from the request, asks
-- the light client, and writes the reply. The handlers are compared with it.
use Prim.Native.String.{◌++◌}
use text.Mathlib.Text.{◌==◌}
use sxn_spv.Common.{ℕ, ◌⊎◌, inl, inr, String, Option, none, some, List, [], ◌∷◌, if◌then◌else◌}
use sxn_spv.JsonRpc.{Json}
use sxn_spv.EthRpc.Types.{
  Alloy, Client, EthReq, EthResp, create_eth_response, get_logs_method, get_block_by_number_method,
  get_transaction_receipt_method, int_error_text, parse_u64,
}

abbrev pub and_then : {A B : Type 0} → String ⊎ A → (A → String ⊎ B) → String ⊎ B
and_then (inl e) f = inl e
and_then (inr a) f = f a

abbrev pub or_error : {A : Type 0} → String → Option A → String ⊎ A
or_error e none = inl e
or_error e (some a) = inr a

abbrev pub worded : {E A : Type 0} → (E → String) → E ⊎ A → String ⊎ A
worded f (inl e) = inl (f e)
worded f (inr a) = inr a

abbrev pub only : {A : Type 0} → String → List A → String ⊎ A
only e (a ∷ []) = inr a
only e _ = inl e

module _ {json : Json} (alloy : Alloy json) where
  open json use {Value, as_str, as_array}

  -- A call of the light client.
  pub data Call : Type 0 where
    logs : alloy.Filter → Call
    block_by_number : ℕ → Call
    transaction_receipt : alloy.B256 → Call

  abbrev pub read_logs : Value → String ⊎ Call
  read_logs p =
      and_then (worded (λ e. "Filter deserialize error " ++ e) (alloy.deserialize p))
        (λ f. inr (logs f))

  abbrev pub read_block : Value → String ⊎ Call
  read_block p = and_then (or_error "params type wrong, int is required" (as_str p)) (λ text.
      and_then (worded (λ e. "error number " ++ int_error_text e) (parse_u64 text))
        (λ n. inr (block_by_number n)))

  abbrev pub read_receipt : Value → String ⊎ Call
  read_receipt p = and_then (or_error "error TX hash" (as_str p)) (λ text.
      and_then (worded (λ e. "H256 deserialize error " ++ e) (alloy.from_hex text))
        (λ h. inr (transaction_receipt h)))

  abbrev pub read_method : String → List Value → String ⊎ Call
  read_method method params =
      if method == get_logs_method
      then and_then (only "invalid numbers of params" params) read_logs
      else if method == get_block_by_number_method
      then and_then (only "Invalid numbers of params" params) read_block
      else if method == get_transaction_receipt_method
      then and_then (only "Invalid numbers of params" params) read_receipt
      else inl ("method " ++ method ++ " not support")

  -- The call that a request asks for, or the text of the error.
  abbrev pub read_call : EthReq json → String ⊎ Call
  read_call req =
      and_then (or_error "Invalid params type, an array is required" (as_array req.params))
        (read_method req.method)

  module _ (client : Client alloy) where
    abbrev pub written : {A : Type 0} → (A → Value) → String ⊎ Option A → String ⊎ Option Value
    written f (inl e) = inl e
    written f (inr none) = inr none
    written f (inr (some a)) = inr (some (f a))

    -- What the light client says, as JSON: an error, nothing, or a value.
    abbrev pub ask : Call → String ⊎ Option Value
    ask (logs f) = and_then (client.get_logs f) (λ l. inr (some (client.of_logs l)))
    ask (block_by_number n) = written client.of_block (client.get_block_by_number n)
    ask (transaction_receipt h) = written client.of_receipt (client.get_transaction_receipt h)

    abbrev pub respond : Value → String ⊎ Option Value → EthResp json
    respond i (inl e) = create_eth_response (some e) i none
    respond i (inr result) = create_eth_response none i result

    -- The response of a server without a cache.
    abbrev pub uncached : EthReq json → EthResp json
    uncached req = respond req.id (and_then (read_call req) ask)

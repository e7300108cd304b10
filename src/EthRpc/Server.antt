-- ===== src/EthRpc/Server.antt =====
-- The three entry points of src/ethrpc/mod.rs: a batch for Ethereum, and one signed response for
-- Ethereum or for Optimism, over the one cache of responses.
use sxn_spv.Common.{◌≡◌, refl, ◌∙◌, String, Option, none, some, List, [], ◌∷◌, map, inr}
use sxn_spv.Common.Order.{bytes_ord}
use sxn_spv.Common.Outcome.{Panics, ok, panic, ◌>>=◌, unwrap}
use sxn_spv.Cache
use sxn_spv.Cache.Laws.{IsValid, get-insert_self}
use sxn_spv.Daemon.Reply.{ℤ, negsuc}
use sxn_spv.JsonRpc.{Json, ResponseCache, IsBacked}
use sxn_spv.EthRpc.Types.{Alloy, Client, EthReq, EthResp, get_transaction_receipt_method}
use sxn_spv.EthRpc.Handlers.{
  answer, receipt_of, receipt_at, handle_get_transaction_receipt, run_method, handle_request,
  handle_requests,
}
use sxn_spv.EthRpc.Optimism.{handle_request_op, handle_request-op}
use sxn_spv.EthRpc.Uncached.{uncached}
use sxn_spv.EthRpc.Cached.{Receipts, handle_requests-uncached}

module _ (json : Json) where
  open json use {Value}

  pub record JsonRpcError : Type 0 where
    pub code : ℤ
    pub message : String
    pub error_data : Option Value

  pub record EthRespOk : Type 0 where
    pub jsonrpc : String
    pub id : Value
    pub result : Option Value

  pub record EthRespErr : Type 0 where
    pub jsonrpc : String
    pub error : JsonRpcError
    pub id : Value

  -- `serde_json::to_string`
  pub record Serde : Type 0 where
    pub of_ok : EthRespOk → String
    pub of_err : EthRespErr → String
    pub of_texts : List String → String

module _ {json : Json} (serde : Serde json) where
  abbrev pub convert_one : EthResp json → String
  convert_one input = elim input.error [
    | none ↦ serde.of_ok (record { jsonrpc = input.jsonrpc; id = input.id; result = input.result })
    | some message ↦ serde.of_err (record {
      jsonrpc = input.jsonrpc;
      error = record { code = negsuc 998; message = message; error_data = none };
      id = input.id;
    })
  ]

  abbrev pub convert : List (EthResp json) → List String
  convert [] = []
  convert (input ∷ inputs) = convert_one input ∷ convert inputs

  -- A single response stands alone, any other number in an array.
  abbrev pub batch_text : List String → String
  batch_text (resp ∷ []) = resp
  batch_text resp = serde.of_texts resp

-- `resp[0]`
abbrev pub first_of : List String → Panics String
first_of [] = panic
first_of (resp ∷ resps) = ok resp

-- What the entry points use of the state: the light clients, and the signature of a response.
pub record AppState {json : Json} (alloy : Alloy json) : Type 1 where
  pub helios_client : Option (Client alloy)
  pub helios_op_client : Option (Client alloy)
  pub create_sgx_response : String → String

module _ {json : Json} (serde : Serde json) (alloy : Alloy json) (state : AppState alloy) where
  abbrev pub batched :
      List (EthResp json) × ResponseCache json → Panics (String × ResponseCache json)
  batched (resps_all, cache) = ok (batch_text serde (convert serde resps_all), cache)

  unfoldable pub eth :
      List (EthReq json) → ResponseCache json → Panics (String × ResponseCache json)
  eth payload cache = unwrap state.helios_client >>= λ helios_client.
      batched (handle_requests alloy helios_client payload cache)

  abbrev pub signed : EthResp json × ResponseCache json → Panics (String × ResponseCache json)
  signed (resp, cache) =
      first_of (convert serde (resp ∷ [])) >>= λ text. ok (state.create_sgx_response text, cache)

  unfoldable pub eth2 : EthReq json → ResponseCache json → Panics (String × ResponseCache json)
  eth2 payload cache = unwrap state.helios_client >>= λ helios_client.
      signed (handle_request alloy helios_client payload cache)

  unfoldable pub optimism : EthReq json → ResponseCache json → Panics (String × ResponseCache json)
  optimism payload cache = unwrap state.helios_op_client >>= λ helios_op_client.
      signed (handle_request_op alloy helios_op_client payload cache)

  -- Over a cache in which every value under the key of a transaction is the receipt that the Ethereum
  -- client has for it, a batch is answered with the text of the responses of a server without a cache, in
  -- the order of the requests, and the cache stays such.
  pub eth-uncached :
      (client : Client alloy) (payload : List (EthReq json)) (cache : ResponseCache json)
      → state.helios_client ≡ some client
      → IsBacked json (Receipts alloy client) cache
      → (cache' : ResponseCache json) × (eth payload cache
          ≡ ok (batch_text serde (convert serde (map (uncached alloy client) payload)), cache'))
        × IsBacked json (Receipts alloy client) cache'
  unfolding eth
  eth-uncached client payload cache has b =
      let (same, kept) = handle_requests-uncached alloy client payload cache b in
      ((handle_requests alloy client payload cache).1, rw (has, eth, same) refl, kept)

  -- A request for the receipt of a transaction.
  pub record AsksReceipt (req : EthReq json) (h : alloy.B256) : Type 0 where
    pub method_is : req.method ≡ get_transaction_receipt_method
    pub param : json.Value
    pub params_are : json.as_array req.params ≡ some (param ∷ [])
    pub text : String
    pub text_is : json.as_str param ≡ some text
    pub hash_is : alloy.from_hex text ≡ inr h

  asked :
      (client : Client alloy) (req : EthReq json) (h : alloy.B256) (cache : ResponseCache json)
      → AsksReceipt req h
      → handle_request alloy client req cache ≡ receipt_of alloy client h req.id cache
  unfolding handle_request run_method handle_get_transaction_receipt receipt_at
  asked client req h cache a =
      rw
        (
          handle_request, a.params_are, run_method, a.method_is, handle_get_transaction_receipt,
          a.text_is, receipt_at, a.hash_is,
        )
        refl

  -- Once Optimism's client has answered a request for the receipt of a transaction that was not in the
  -- cache, a request to Ethereum for the transaction with that hash is answered with the receipt of
  -- Optimism, whatever the Ethereum client has.
  pub optimism-eth2 :
      (client op_client : Client alloy) (req op_req : EthReq json) (h : alloy.B256)
      (receipt : op_client.Receipt) (cache : ResponseCache json)
      → state.helios_client ≡ some client
      → state.helios_op_client ≡ some op_client
      → AsksReceipt req h
      → AsksReceipt op_req h
      → IsValid cache
      → Cache.get cache (alloy.to_vec h) ≡ none
      → op_client.get_transaction_receipt h ≡ inr (some receipt)
      → (cache' : ResponseCache json) × (optimism op_req cache
          ≡ ok (
            state.create_sgx_response
                (convert_one serde (answer op_req.id (op_client.of_receipt receipt))),
            cache',
          ))
        × (eth2 req cache'
            ≡ ok (
              state.create_sgx_response
                  (convert_one serde (answer req.id (op_client.of_receipt receipt))),
              cache',
            ))
  unfolding optimism eth2 receipt_of
  optimism-eth2 client op_client req op_req h receipt cache has has_op a a_op valid new found =
      let v = op_client.of_receipt receipt in
      let cache' = Cache.insert cache (alloy.to_vec h) v in
      let kept = get-insert_self cache (alloy.to_vec h) v valid in
      let here =
        handle_request-op alloy op_client op_req cache ∙ asked op_client op_req h cache a_op in
      (
        cache',
        rw (has_op, optimism, here, receipt_of, new, found) refl,
        rw (has, eth2, asked client req h cache' a, receipt_of, kept) refl,
      )

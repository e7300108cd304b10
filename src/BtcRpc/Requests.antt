-- ===== src/BtcRpc/Requests.antt =====
-- A request, and a batch of them: the dispatch of src/btcrpc/mod.rs. The requests of a batch wait only
-- for the cache, and are run here one after the other.
use sxn_spv.Common.{String, none, some, List, [], ◌∷◌, ◌⊎◌, inl, inr, if◌then◌else◌}
use sxn_spv.Common.Classes.{string_eq}
use sxn_spv.Bitcoin.{Bitcoin}
use sxn_spv.BtcRpc.Types.{
  Json, Hashes, Handle, invalid_request, array_required, method_unsupported, BtcResp, ResponseCache,
}
use sxn_spv.BtcRpc.Handlers.{
  Response, refuse, handle_getbestblockhash, handle_getblockheader, handle_getblockhash,
}

-- A request that was read, with or without a `jsonrpc` member.
pub record BtcReq {bitcoin : Bitcoin} (json : Json bitcoin) : Type 0 where
  pub method : String
  pub params : json.Value
  pub id : json.Value

module _ {bitcoin : Bitcoin} (json : Json bitcoin) (hashes : Hashes bitcoin)
    (handle : Handle bitcoin) where
  open json use {Value, as_array}

  unfoldable pub run_method : String → List Value → Value → ResponseCache json → Response json
  run_method method params i cache =
      if string_eq.beq method "getbestblockhash"
      then (handle_getbestblockhash json hashes handle params i, cache)
      else if string_eq.beq method "getblockheader"
      then handle_getblockheader json hashes handle params i cache
      else if string_eq.beq method "getblockhash"
      then handle_getblockhash json hashes handle params i cache
      else (refuse i method_unsupported, cache)

  -- `parse_request` fails with the id of the request, or returns it.
  unfoldable pub handle_request : Value ⊎ BtcReq json → ResponseCache json → Response json
  unfolding run_method
  handle_request (inl i) cache = (refuse i invalid_request, cache)
  handle_request (inr req) cache = elim (as_array req.params) [
    | none ↦ (refuse req.id array_required, cache)
    | some params ↦ run_method req.method params req.id cache
  ]

  unfoldable pub handle_fetch_header :
      List (Value ⊎ BtcReq json) → ResponseCache json → List (BtcResp json) × ResponseCache json
  handle_fetch_header [] cache = ([], cache)
  handle_fetch_header (req ∷ payload) cache =
      let first = handle_request req cache in
      let rest = handle_fetch_header payload first.1 in (first.0 ∷ rest.0, rest.1)

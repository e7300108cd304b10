-- ===== src/BtcRpc/Entry.antt =====
-- How src/btcrpc/mod.rs reads the requests of a batch, and its entry points; and those of src/btcrpc/proof.rs.
use Prim.Native.String.{◌++◌}
use sxn_spv.Common.{ℕ, ◌≡◌, ◌⊎◌, inl, inr, Bool, true, String, Option, none, some, List, map}
use sxn_spv.Common.Classes.{string_eq}
use sxn_spv.Common.Outcome.{Panics, ok, ◌>>=◌, unwrap}
use sxn_spv.Common.Order.{bytes_ord}
use sxn_spv.Bitcoin.{Bitcoin}
use sxn_spv.BtcRpc.Types.{Json, Hashes, Handle, BtcResp, ResponseCache}
use sxn_spv.BtcRpc.Requests.{BtcReq, handle_fetch_header}
use sxn_spv.BtcRpc.ChainState.{
  MerkleProofParamChain, bit_coin, doge_coin, Merkle, ProofError, ChainsState, verify_transaction,
}

-- A member of a value, the number 1, and a request read from a value with the member `jsonrpc` or without
-- it. From an object, the identifier that is read is the member `id`. A request can also be read from an
-- array, by position: an array has no members, and nothing is said of its identifier.
pub record Members {bitcoin : Bitcoin} (json : Json bitcoin) : Type 0 where
  pub is_object : json.Value → Bool
  pub get : json.Value → String → Option json.Value
  pub one : json.Value
  pub btc_req : json.Value → Option (BtcReq json)
  pub btc_req_no_json_rpc : json.Value → Option (BtcReq json)
  pub btc_req_id :
      (v : json.Value) (req : BtcReq json)
      → is_object v ≡ true
      → btc_req v ≡ some req
      → get v "id" ≡ some req.id
  pub btc_req_no_json_rpc_id :
      (v : json.Value) (req : BtcReq json)
      → is_object v ≡ true
      → btc_req_no_json_rpc v ≡ some req
      → get v "id" ≡ some req.id

module _ {bitcoin : Bitcoin} {json : Json bitcoin} where
  open json use {Value}

  -- The identifier of what was read.
  abbrev pub read_id : Value ⊎ BtcReq json → Value
  read_id (inl i) = i
  read_id (inr req) = req.id

module _ {bitcoin : Bitcoin} {json : Json bitcoin} (members : Members json) where
  open json use {Value}
  open members use {get, one, btc_req, btc_req_no_json_rpc}

  -- `map_or(json!(1), ..)`
  abbrev pub or_one : Option Value → Value
  or_one none = one
  or_one (some v) = v

  abbrev pub id_of : Value → Value
  id_of req = or_one (get req "id")

  abbrev pub deserialized : Value → Option (BtcReq json) → Value ⊎ BtcReq json
  deserialized i none = inl i
  deserialized i (some req) = inr req

  unfoldable pub parse_request : Value → Value ⊎ BtcReq json
  parse_request req = elim (get req "jsonrpc") [
    | some version ↦ deserialized (id_of req) (btc_req req)
    | none ↦ deserialized (id_of req) (btc_req_no_json_rpc req)
  ]

-- What the entry points put around the result: the text of the responses, and the signature.
pub record Envelope {bitcoin : Bitcoin} (json : Json bitcoin) : Type 0 where
  pub texts : List (BtcResp json) → String
  pub create_sgx_response : String → String

module _ {bitcoin : Bitcoin} (json : Json bitcoin) (hashes : Hashes bitcoin)
    (merkle : Merkle bitcoin) (state : ChainsState merkle) where
  module _ (members : Members json) (envelope : Envelope json) where
    abbrev pub fetched_headers :
        List json.Value
        → ResponseCache json
        → Option (Handle bitcoin)
        → Panics (String × ResponseCache json)
    fetched_headers payload cache client = do
      nakamoto_handle ← unwrap client
      let (resps, cache') =
          handle_fetch_header json hashes nakamoto_handle (map (parse_request members) payload)
            cache
      ok (envelope.create_sgx_response (envelope.texts resps), cache')

    unfoldable pub btc : List json.Value → ResponseCache json → Panics (String × ResponseCache json)
    btc payload cache = fetched_headers payload cache state.handle

    unfoldable pub doge :
        List json.Value → ResponseCache json → Panics (String × ResponseCache json)
    doge payload cache = fetched_headers payload cache state.doge_handle

  module _ (txid_from_str : String → String ⊎ ℕ) where
    -- The transaction whose proof was accepted, or the error: that of the text of an identifier, or that
    -- of the proof.
    abbrev pub VerifyResult : Type 0
    VerifyResult = (String ⊎ ProofError) ⊎ ℕ

    abbrev pub parse_txid : String → String ⊎ ℕ
    parse_txid txid = elim (txid_from_str txid) [
      | inl e ↦ inl ("Invalid Txid: " ++ e)
      | inr id ↦ inr id
    ]

    abbrev pub answered_with : ℕ → Option ProofError → VerifyResult
    answered_with txid none = inr txid
    answered_with txid (some e) = inl (inr e)

    abbrev pub verified_txid :
        ℕ
        → Panics (Option ProofError) × ResponseCache json
        → Panics VerifyResult × ResponseCache json
    verified_txid txid (result, cache) = (result >>= λ r. ok (answered_with txid r), cache)

    abbrev pub verify_parsed :
        MerkleProofParamChain
        → ResponseCache json
        → String ⊎ ℕ
        → Panics VerifyResult × ResponseCache json
    verify_parsed chain cache (inl e) = (ok (inl (inl e)), cache)
    verify_parsed chain cache (inr txid) =
        verified_txid txid (verify_transaction json hashes merkle state txid chain cache)

    unfoldable pub verify_tx :
        String → ResponseCache json → Panics VerifyResult × ResponseCache json
    verify_tx txid cache = verify_parsed bit_coin cache (parse_txid txid)

    unfoldable pub verify_tx_doge :
        String → ResponseCache json → Panics VerifyResult × ResponseCache json
    verify_tx_doge txid cache = verify_parsed doge_coin cache (parse_txid txid)

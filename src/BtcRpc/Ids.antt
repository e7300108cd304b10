-- ===== src/BtcRpc/Ids.antt =====
-- The identifiers of the responses of src/btcrpc/mod.rs.
use sxn_spv.Common.{
  ℕ, ◌≡◌, refl, ◌⊎◌, inl, inr, String, Bool, true, Option, none, some, List, [], ◌∷◌, map,
  Option-cases, Bool-cases, All,
}
use sxn_spv.Common.Classes.{string_eq}
use sxn_spv.Common.Order.{bytes_ord}
use sxn_spv.Bitcoin.{Bitcoin, BlockHash}
use sxn_spv.Cache
use sxn_spv.BtcRpc.Types.{Json, Hashes, Handle, BtcResp, ResponseCache, to_be_bytes}
use sxn_spv.BtcRpc.Handlers.{
  found_header, found_hash, getblockheader_of, getblockheader_by, getblockhash_of,
  handle_getbestblockhash, handle_getblockheader, handle_getblockhash, tip_response, parsed_hash,
  or_true,
}
use sxn_spv.BtcRpc.Requests.{BtcReq, run_method, handle_request, handle_fetch_header}
use sxn_spv.BtcRpc.Entry.{Members, id_of, deserialized, parse_request, read_id}

module _ {bitcoin : Bitcoin} {json : Json bitcoin} (members : Members json) where
  open json use {Value}
  open members use {get, btc_req, btc_req_no_json_rpc}

  deserialized_id :
      (v : Value) (read : Option (BtcReq json))
      → ((req : BtcReq json) → read ≡ some req → get v "id" ≡ some req.id)
      → read_id (deserialized members (id_of members v) read) ≡ id_of members v
  deserialized_id v none law = refl
  deserialized_id v (some req) law = rw (law req refl) refl

  parse_request_id :
      (v : Value) → members.is_object v ≡ true → read_id (parse_request members v) ≡ id_of members v
  unfolding parse_request
  parse_request_id v object = elim (Option-cases (get v "jsonrpc")) [
    | inl eq ↦
        rw (eq, parse_request)
          (deserialized_id v (btc_req_no_json_rpc v)
            (λ req. members.btc_req_no_json_rpc_id v req object))
    | inr (w, eq) ↦
        rw (eq, parse_request)
          (deserialized_id v (btc_req v) (λ req. members.btc_req_id v req object))
  ]

module _ {bitcoin : Bitcoin} (json : Json bitcoin) (hashes : Hashes bitcoin)
    (handle : Handle bitcoin) where
  open bitcoin use {BlockHeader}
  open json use {Value, as_array, as_bool, as_str, as_u64}

  tip_id :
      (i : Value) (said : String ⊎ (ℕ × BlockHeader))
      → (tip_response json hashes handle i said).id ≡ i
  tip_id i (inl e) = refl
  tip_id i (inr v) = refl

  best_id :
      (params : List Value) (i : Value)
      → (handle_getbestblockhash json hashes handle params i).id ≡ i
  unfolding handle_getbestblockhash
  best_id [] i = tip_id i handle.get_tip
  best_id (p ∷ params) i = refl

  module _ (i : Value) (cache : ResponseCache json) where
    found_id :
        (verbose : Bool) (h : BlockHash) (said : String ⊎ Option (ℕ × BlockHeader))
        → (found_header json hashes handle verbose h i cache said).0.id ≡ i
    found_id verbose h (inl e) = refl
    found_id verbose h (inr none) = refl
    found_id verbose h (inr (some v)) = refl

    of_hash_id :
        (verbose : Bool) (h : BlockHash)
        → (getblockheader_of json hashes handle verbose h i cache).0.id ≡ i
    unfolding getblockheader_of
    of_hash_id verbose h = elim (Option-cases (Cache.get cache (hashes.to_vec h))) [
      | inl new ↦ rw (new, getblockheader_of) (found_id verbose h (handle.get_block h))
      | inr (v, old) ↦ rw (old, getblockheader_of) refl
    ]

    header_id :
        (verbose : Bool) (v : Value) (read : Option (Option BlockHash))
        → parsed_hash hashes (as_str v) ≡ read
        → (getblockheader_by json hashes handle verbose v i cache).0.id ≡ i
    unfolding getblockheader_by
    header_id verbose v none eq = rw (eq, getblockheader_by) refl
    header_id verbose v (some none) eq = rw (eq, getblockheader_by) refl
    header_id verbose v (some (some h)) eq = rw (eq, getblockheader_by) (of_hash_id verbose h)

    getblockheader_id :
        (params : List Value) → (handle_getblockheader json hashes handle params i cache).0.id ≡ i
    unfolding handle_getblockheader
    getblockheader_id [] = refl
    getblockheader_id (v ∷ []) = header_id true v _ refl
    getblockheader_id (v ∷ w ∷ []) = header_id (or_true (as_bool w)) v _ refl
    getblockheader_id (v ∷ w ∷ p ∷ params) = refl

    found_hash_id :
        (height : ℕ) (said : String ⊎ Option BlockHeader)
        → (found_hash json hashes handle height i cache said).0.id ≡ i
    found_hash_id height (inl e) = refl
    found_hash_id height (inr none) = refl
    found_hash_id height (inr (some header)) = refl

    at_height_id : (height : ℕ) → (getblockhash_of json hashes handle height i cache).0.id ≡ i
    unfolding getblockhash_of
    at_height_id height = elim (Option-cases (Cache.get cache (to_be_bytes height))) [
      | inl new ↦
          rw (new, getblockhash_of) (found_hash_id height (handle.get_block_by_height height))
      | inr (v, old) ↦ rw (old, getblockhash_of) refl
    ]

    getblockhash_id :
        (params : List Value) → (handle_getblockhash json hashes handle params i cache).0.id ≡ i
    unfolding handle_getblockhash
    getblockhash_id [] = refl
    getblockhash_id (p ∷ []) = elim (Option-cases (as_u64 p)) [
      | inl eq ↦ rw (eq, handle_getblockhash) refl
      | inr (height, eq) ↦ rw (eq, handle_getblockhash) (at_height_id height)
    ]
    getblockhash_id (p ∷ q ∷ params) = refl

    run_id :
        (method : String) (params : List Value)
        → (run_method json hashes handle method params i cache).0.id ≡ i
    unfolding run_method
    run_id method params = elim (Bool-cases (string_eq.beq method "getbestblockhash")) [
      | inl best ↦ rw (best, run_method) (best_id params i)
      | inr b ↦ elim (Bool-cases (string_eq.beq method "getblockheader")) [
        | inl header ↦ rw (b, header, run_method) (getblockheader_id params)
        | inr h ↦ elim (Bool-cases (string_eq.beq method "getblockhash")) [
          | inl hash ↦ rw (b, h, hash, run_method) (getblockhash_id params)
          | inr other ↦ rw (b, h, other, run_method) refl
        ]
      ]
    ]

  request_id :
      (req : Value ⊎ BtcReq json) (cache : ResponseCache json)
      → (handle_request json hashes handle req cache).0.id ≡ read_id req
  unfolding handle_request
  request_id (inl i) cache = refl
  request_id (inr req) cache = elim (Option-cases (as_array req.params)) [
    | inl eq ↦ rw (eq, handle_request) refl
    | inr (params, eq) ↦ rw (eq, handle_request) (run_id req.id cache req.method params)
  ]

  -- Every request of a batch of JSON objects gets one response, in the order of the requests, with the
  -- identifier of the request, or 1 where it has none, whether it can be read as a request or not, whatever
  -- it asks for and whether it fails.
  pub handle_fetch_header-ids :
      (members : Members json) (payload : List Value) (cache : ResponseCache json)
      → All (λ v. members.is_object v ≡ true) payload
      → map
          (λ (resp : BtcResp json). resp.id)
          (handle_fetch_header json hashes handle (map (parse_request members) payload) cache).0
        ≡ map (id_of members) payload
  unfolding handle_fetch_header
  handle_fetch_header-ids members [] cache objects = refl
  handle_fetch_header-ids members (v ∷ payload) cache (object, objects) =
      let req = parse_request members v in
      cc (
        request_id req cache,
        parse_request_id members v object,
        handle_fetch_header-ids members payload (handle_request json hashes handle req cache).1
            objects,
      )

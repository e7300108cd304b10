-- ===== src/EthRpc/Cached.antt =====
-- The handlers of src/ethrpc/mod.rs, with their cache, against the server without one.
use Prim.Native.String.{◌++◌}
use text.Mathlib.Text.{◌==◌}
use sxn_spv.Common.{
  ℕ, ◌≡◌, refl, ap, ◌∙◌, ◌⊎◌, inl, inr, String, Option, none, some, List, [], ◌∷◌, map,
  Option-cases, ⊎-cases, Bool-cases,
}
use sxn_spv.Common.Order.{bytes_ord}
use sxn_spv.Cache
use sxn_spv.JsonRpc.{Json, ResponseCache, IsBacked, insert-IsBacked}
use sxn_spv.EthRpc.Types.{
  Alloy, Client, EthReq, EthResp, get_logs_method, get_block_by_number_method,
  get_transaction_receipt_method, parse_u64, IntErrorKind, int_error_text,
}
use sxn_spv.EthRpc.Handlers.{
  Response, receipt_response, receipt_of, receipt_at, handle_get_logs, handle_get_block_by_number,
  handle_get_transaction_receipt, run_method, handle_request, handle_requests, block_at, filtered,
  logs_response, block_response, numbered,
}
use sxn_spv.EthRpc.Uncached.{
  and_then, worded, only, transaction_receipt, block_by_number, logs, read_logs, read_block,
  read_receipt, read_method, written, ask, respond, uncached,
}

module _ {json : Json} (alloy : Alloy json) (client : Client alloy) where
  open json use {Value, as_str, as_array}

  -- The value is what the client has as the receipt of the transaction with this key.
  abbrev pub Receipts : List ℕ → Value → Type 0
  Receipts k v =
      (h : alloy.B256)
      → alloy.to_vec h ≡ k
      → ask alloy client (transaction_receipt h) ≡ inr (some v)

  abbrev Answers : (Response alloy client) → EthResp json → Type 0
  Answers r spec = (r.0 ≡ spec) × IsBacked json Receipts r.1

  own :
      (h : alloy.B256) (v : Value)
      → ask alloy client (transaction_receipt h) ≡ inr (some v)
      → Receipts (alloy.to_vec h) v
  own h v has g same =
      ap (λ k. ask alloy client (transaction_receipt k)) (alloy.to_vec_injective g h same) ∙ has

  module _ (i : Value) (cache : ResponseCache json) (b : IsBacked json Receipts cache) where
    response_lem :
        (h : alloy.B256) (said : String ⊎ Option client.Receipt)
        → client.get_transaction_receipt h ≡ said
        → Answers
            (receipt_response alloy client h i cache said)
            (respond alloy client i (written alloy client client.of_receipt said))
    response_lem h (inl e) eq = (refl, b)
    response_lem h (inr none) eq = (refl, b)
    response_lem h (inr (some r)) eq = (
      refl,
      insert-IsBacked json Receipts cache (alloy.to_vec h) (client.of_receipt r)
          (own h (client.of_receipt r) (ap (written alloy client client.of_receipt) eq)) b,
    )

    receipt_of_lem :
        (h : alloy.B256)
        → Answers
            (receipt_of alloy client h i cache)
            (respond alloy client i (ask alloy client (transaction_receipt h)))
    unfolding receipt_of
    receipt_of_lem h = elim (Option-cases (Cache.get cache (alloy.to_vec h))) [
      | inl new ↦ rw (new, receipt_of) (response_lem h (client.get_transaction_receipt h) refl)
      | inr (v, old) ↦ rw (old, receipt_of, b.backed (alloy.to_vec h) v old h refl) (refl, b)
    ]

    hex_lem :
        (hex : String)
        → Answers (receipt_at alloy client i cache (some hex)) (
            respond alloy client i (
              and_then
                (and_then
                  (worded (λ e. "H256 deserialize error " ++ e) (alloy.from_hex hex))
                  (λ h. inr (transaction_receipt h)))
                (ask alloy client)))
    unfolding receipt_at
    hex_lem hex = elim (⊎-cases (alloy.from_hex hex)) [
      | inl (e, eq) ↦ rw (eq, receipt_at) (refl, b)
      | inr (h, eq) ↦ rw (eq, receipt_at) (receipt_of_lem h)
    ]

    receipt_at_lem :
        (p : Value)
        → Answers
            (receipt_at alloy client i cache (as_str p))
            (respond alloy client i (and_then (read_receipt alloy p) (ask alloy client)))
    unfolding receipt_at
    receipt_at_lem p = elim (Option-cases (as_str p)) [
      | inl eq ↦ rw (eq, receipt_at) (refl, b)
      | inr (hex, eq) ↦ rw (eq, receipt_at) (hex_lem hex)
    ]

    receipt_lem :
        (params : List Value)
        → Answers (handle_get_transaction_receipt alloy client params i cache) (
            respond alloy client i (
              and_then
                (and_then (only "Invalid numbers of params" params) (read_receipt alloy))
                (ask alloy client)))
    unfolding handle_get_transaction_receipt
    receipt_lem [] = (refl, b)
    receipt_lem (p ∷ []) = receipt_at_lem p
    receipt_lem (p ∷ q ∷ params) = (refl, b)

  module _ (i : Value) where
    logs_asked :
        (said : String ⊎ client.Logs)
        → logs_response alloy client i said
          ≡ respond alloy client i (and_then said (λ l. inr (some (client.of_logs l))))
    logs_asked (inl e) = refl
    logs_asked (inr l) = refl

    filtered_lem :
        (r : String ⊎ alloy.Filter)
        → filtered alloy client i r
          ≡ respond alloy client i (
              and_then
                (and_then (worded (λ e. "Filter deserialize error " ++ e) r) (λ f. inr (logs f)))
                (ask alloy client))
    filtered_lem (inl e) = refl
    filtered_lem (inr f) = logs_asked (client.get_logs f)

    logs_lem :
        (params : List Value)
        → handle_get_logs alloy client params i
          ≡ respond alloy client i (
              and_then
                (and_then (only "invalid numbers of params" params) (read_logs alloy))
                (ask alloy client))
    unfolding handle_get_logs
    logs_lem [] = refl
    logs_lem (p ∷ []) = filtered_lem (alloy.deserialize p)
    logs_lem (p ∷ q ∷ params) = refl

    block_asked :
        (said : String ⊎ Option client.Block)
        → block_response alloy client i said
          ≡ respond alloy client i (written alloy client client.of_block said)
    block_asked (inl e) = refl
    block_asked (inr none) = refl
    block_asked (inr (some block)) = refl

    numbered_lem :
        (r : IntErrorKind ⊎ ℕ)
        → numbered alloy client i r
          ≡ respond alloy client i (
              and_then
                (and_then
                  (worded (λ e. "error number " ++ int_error_text e) r)
                  (λ n. inr (block_by_number n)))
                (ask alloy client))
    numbered_lem (inl e) = refl
    numbered_lem (inr n) = block_asked (client.get_block_by_number n)

    block_at_lem :
        (p : Value)
        → block_at alloy client i (as_str p)
          ≡ respond alloy client i (and_then (read_block alloy p) (ask alloy client))
    block_at_lem p = elim (Option-cases (as_str p)) [
      | inl eq ↦ rw eq refl
      | inr (text, eq) ↦ rw eq (numbered_lem (parse_u64 text))
    ]

    block_lem :
        (params : List Value)
        → handle_get_block_by_number alloy client params i
          ≡ respond alloy client i (
              and_then
                (and_then (only "Invalid numbers of params" params) (read_block alloy))
                (ask alloy client))
    unfolding handle_get_block_by_number
    block_lem [] = refl
    block_lem (p ∷ []) = block_at_lem p
    block_lem (p ∷ q ∷ params) = refl

  module _ (cache : ResponseCache json) (b : IsBacked json Receipts cache) where
    run_lem :
        (method : String) (params : List Value) (i : Value)
        → Answers
            (run_method alloy client method params i cache)
            (respond alloy client i (and_then (read_method alloy method params) (ask alloy client)))
    unfolding run_method
    run_lem method params i = elim (Bool-cases (method == get_logs_method)) [
      | inl is_logs ↦ rw (is_logs, run_method) (logs_lem i params, b)
      | inr not_logs ↦ elim (Bool-cases (method == get_block_by_number_method)) [
        | inl is_block ↦ rw (not_logs, is_block, run_method) (block_lem i params, b)
        | inr not_block ↦ elim (Bool-cases (method == get_transaction_receipt_method)) [
          | inl is_receipt ↦
              rw (not_logs, not_block, is_receipt, run_method) (receipt_lem i cache b params)
          | inr other ↦ rw (not_logs, not_block, other, run_method) (refl, b)
        ]
      ]
    ]

    request_lem :
        (req : EthReq json)
        → Answers (handle_request alloy client req cache) (uncached alloy client req)
    unfolding handle_request
    request_lem req = elim (Option-cases (as_array req.params)) [
      | inl eq ↦ rw (eq, handle_request) (refl, b)
      | inr (params, eq) ↦ rw (eq, handle_request) (run_lem req.method params req.id)
    ]

  -- Over a cache in which every value under the key of a transaction is the receipt that the light client
  -- has for it, requests are answered one after the other as by a server without a cache, each with its
  -- own response, and the cache stays such.
  pub handle_requests-uncached :
      (payload : List (EthReq json)) (cache : ResponseCache json)
      → IsBacked json Receipts cache
      → ((handle_requests alloy client payload cache).0 ≡ map (uncached alloy client) payload)
        × IsBacked json Receipts (handle_requests alloy client payload cache).1
  unfolding handle_requests
  handle_requests-uncached [] cache b = (refl, b)
  handle_requests-uncached (req ∷ payload) cache b =
      let (one, b') = request_lem cache b req in
      let (others, b'') =
        handle_requests-uncached payload (handle_request alloy client req cache).1 b' in
      (cc (one, others), b'')

-- ===== src/Daemon/Batch.antt =====
-- `Counter::next`, `handle_request_batch`, `request` and `requests` of src/daemon.rs. The requests of a batch
-- are sent in pieces of 10000, all under one number.
pub mod Strict
pub mod Threshold
use sxn_spv.Common.{
  ℕ, ◌+◌, ◌%◌, ◌^◌, ◌⊎◌, inl, inr, String, Option, none, some, List, [], ◌∷◌, ◌++◌, map, length,
  ltb, ◌==◌, if◌then◌else◌,
}
use sxn_spv.Common.Outcome.{Outcome, ok, err, panic, ◌>>=◌}
use sxn_spv.Daemon.{chunks}
use sxn_spv.Daemon.Reply.{Rpc, ReplyError, parse_jsonrpc_reply}

-- `Counter::next`: the new value of the counter, which is the number of the batch.
abbrev pub next : ℕ → ℕ
next value = (value + 1) % 2 ^ 64

-- `send_req` of a node: the text of an error, or the value of the reply.
module _ (rpc : Rpc) (send_req : List rpc.Value → String ⊎ rpc.Value) where
  open rpc use {Value, as_array}

  pub data BatchError : Type 0 where
    send_failed : String → BatchError
    reply_error : ReplyError rpc → BatchError
    non_array : Value → BatchError

  pub record Progress : Type 0 where
    pub results : List Value
    pub failed_requests : ℕ

  -- The loop over the replies to one piece: the error that passes the threshold ends it.
  unfoldable pub take_replies : String → ℕ → ℕ → Progress → List Value → Outcome BatchError Progress
  take_replies method id threshold progress [] = ok progress
  take_replies method id threshold progress (reply ∷ replies) =
      elim (parse_jsonrpc_reply rpc reply method id) [
        | ok parsed ↦
            take_replies method id threshold
              (record progress { results = progress.results ++ parsed ∷ [] }) replies
        | err e ↦
            let rest =
              take_replies method id threshold
                (record progress { failed_requests = progress.failed_requests + 1 }) replies in
            if ltb threshold (progress.failed_requests + 1) then err (reply_error e) else rest
        | panic ↦ panic
      ]

  -- The replies to one piece.
  abbrev pub replies_in : Value → Option (List Value) → Outcome BatchError (List Value)
  replies_in reply none = err (non_array reply)
  replies_in reply (some replies) = ok replies

  abbrev pub answered : String ⊎ Value → Outcome BatchError (List Value)
  answered (inl e) = err (send_failed e)
  answered (inr reply) = replies_in reply (as_array reply)

  unfoldable pub send_chunks :
      String → ℕ → ℕ → Progress → List (List Value) → Outcome BatchError Progress
  send_chunks method id threshold progress [] = ok progress
  send_chunks method id threshold progress (reqs ∷ rest) = answered (send_req reqs) >>= λ replies.
      take_replies method id threshold progress replies >>= λ progress'.
      send_chunks method id threshold progress' rest

  -- The pieces of a batch under a number.
  abbrev pub pieces_of : String → ℕ → List Value → List (List Value)
  pieces_of method id params_list =
      chunks (length params_list) 10000 (map (λ params. rpc.request method params id) params_list)

  -- The threshold is a number of failures for a number of requests, the product with a fraction. The
  -- result stands beside the counter.
  unfoldable pub handle_request_batch :
      ℕ → String → List Value → (ℕ → ℕ) → Outcome BatchError (List Value) × ℕ
  handle_request_batch message_id method params_list failure_threshold =
      let id = next message_id in
      (
        (send_chunks method id (failure_threshold (length params_list))
              (record { results = []; failed_requests = 0 }) (pieces_of method id params_list)
            >>= λ progress. ok progress.results),
        id,
      )

  -- The fraction is 0.
  abbrev pub no_failures : ℕ → ℕ
  no_failures total = 0

  unfoldable pub requests : ℕ → String → List Value → Outcome BatchError (List Value) × ℕ
  requests message_id method params_list =
      handle_request_batch message_id method params_list no_failures

  -- `assert_eq!(values.len(), 1)`, and the value.
  abbrev pub only_value : List Value → Outcome BatchError Value
  only_value (v ∷ []) = ok v
  only_value _ = panic

  unfoldable pub request : ℕ → String → Value → Outcome BatchError Value × ℕ
  request message_id method params =
      let (values, id) = handle_request_batch message_id method (params ∷ []) no_failures in
      (values >>= only_value, id)

-- ===== src/Daemon/Batch/Strict.antt =====
-- A batch in which no request may fail, against a plain reading; and how many replies of a batch may fail.
use sxn_spv.Common.{ℕ, ◌≡◌, ◌⊎◌, inl, inr, refl, sym, ap, ◌∙◌, String, List, [], ◌∷◌, ◌++◌}
use mathlib.Core.List.{append_assoc, append-nil}
use sxn_spv.Common.Outcome.{Outcome, ok, err, panic, ◌>>=◌, map_err, Outcome-cases}
use sxn_spv.Daemon.Reply.{Rpc, parse_jsonrpc_reply}
use sxn_spv.Daemon.Batch.{
  BatchError, reply_error, Progress, take_replies, answered, send_chunks, pieces_of, next, requests,
  handle_request_batch,
}

module _ (rpc : Rpc) (send_req : List rpc.Value → String ⊎ rpc.Value) where
  open rpc use {Value}

  abbrev Batch : Type 0 → Type 0
  Batch A = Outcome (BatchError rpc send_req) A

  abbrev parsed : String → ℕ → Value → Batch Value
  parsed method id reply = map_err reply_error (parse_jsonrpc_reply rpc reply method id)

  -- Every reply of a list is parsed; the first that is an error is the result.
  abbrev pub parse_all : String → ℕ → List Value → Batch (List Value)
  parse_all method id [] = ok []
  parse_all method id (reply ∷ replies) =
      parsed method id reply >>= λ v. parse_all method id replies >>= λ vs. ok (v ∷ vs)

  -- Every piece is sent, and its replies are parsed before the next is sent.
  abbrev pub fetch_all : String → ℕ → List (List Value) → Batch (List Value)
  fetch_all method id [] = ok []
  fetch_all method id (reqs ∷ rest) = answered rpc send_req (send_req reqs) >>= λ replies.
      parse_all method id replies >>= λ vs. fetch_all method id rest >>= λ more. ok (vs ++ more)

  abbrev clean : List Value → Progress rpc send_req
  clean results = record { results = results; failed_requests = 0 }

  abbrev made : List Value → Batch (Progress rpc send_req)
  made results = ok (clean results)

  shift :
      (acc : List Value) (v : Value) (m : Batch (List Value))
      → (m >>= λ vs. ok (clean ((acc ++ v ∷ []) ++ vs)))
        ≡ ((m >>= λ vs. ok (v ∷ vs)) >>= λ vs. ok (clean (acc ++ vs)))
  shift acc v (ok vs) = ap made (append_assoc acc (v ∷ []) vs)
  shift acc v (err e) = refl
  shift acc v panic = refl

  take_replies-parse_all :
      (method : String) (id : ℕ) (acc replies : List Value)
      → take_replies rpc send_req method id 0 (clean acc) replies
        ≡ (parse_all method id replies >>= λ vs. ok (clean (acc ++ vs)))
  unfolding take_replies
  take_replies-parse_all method id acc [] = ap made (sym (append-nil acc))
  take_replies-parse_all method id acc (reply ∷ replies) =
      elim (Outcome-cases (parse_jsonrpc_reply rpc reply method id)) [
        | inl (v, good) ↦
            rw (good, take_replies)
              (take_replies-parse_all method id (acc ++ v ∷ []) replies
                ∙ shift acc v (parse_all method id replies))
        | inr (inl (e, bad)) ↦ rw (bad, take_replies) refl
        | inr (inr stopped) ↦ rw (stopped, take_replies) refl
      ]

  abbrev progressed : List Value → List Value → Batch (Progress rpc send_req)
  progressed acc vs = ok (clean (acc ++ vs))

  regroup :
      (acc vs : List Value) (m : Batch (List Value))
      → (m >>= progressed (acc ++ vs)) ≡ ((m >>= λ more. ok (vs ++ more)) >>= progressed acc)
  regroup acc vs (ok more) = ap made (append_assoc acc vs more)
  regroup acc vs (err e) = refl
  regroup acc vs panic = refl

  send_chunks-fetch_all :
      (method : String) (id : ℕ) (acc : List Value) (pieces : List (List Value))
      → send_chunks rpc send_req method id 0 (clean acc) pieces
        ≡ (fetch_all method id pieces >>= progressed acc)
  unfolding send_chunks
  send_chunks-fetch_all method id acc [] = ap made (sym (append-nil acc))
  send_chunks-fetch_all method id acc (reqs ∷ rest) =
      elim (Outcome-cases (answered rpc send_req (send_req reqs))) [
        | inl (replies, good) ↦
            let step = take_replies-parse_all method id acc replies in
            elim (Outcome-cases (parse_all method id replies)) [
              | inl (vs, parsed_) ↦
                  let taken : take_replies rpc send_req method id 0 (clean acc) replies
                      ≡ progressed acc vs =
                    step ∙ rw parsed_ refl in
                  rw (good, taken, parsed_)
                    (send_chunks-fetch_all method id (acc ++ vs) rest
                      ∙ regroup acc vs (fetch_all method id rest))
              | inr (inl (e, bad)) ↦
                  let taken : take_replies rpc send_req method id 0 (clean acc) replies ≡ err e =
                    step ∙ rw bad refl in
                  rw (good, taken, bad) refl
              | inr (inr stopped) ↦
                  let taken : take_replies rpc send_req method id 0 (clean acc) replies ≡ panic =
                    step ∙ rw stopped refl in
                  rw (good, taken, stopped) refl
            ]
        | inr (inl (e, bad)) ↦ rw bad refl
        | inr (inr stopped) ↦ rw stopped refl
      ]

  last_step : (m : Batch (List Value)) → ((m >>= progressed []) >>= λ p. ok p.results) ≡ m
  last_step (ok vs) = refl
  last_step (err e) = refl
  last_step panic = refl

  -- A batch in which no request may fail is the plain reading of its pieces, each of which is sent and whose
  -- replies are parsed in order: the results are those of all replies, and the first error of a request or
  -- of a reply is the error of the batch. This holds whatever the node replies.
  pub requests-fetch_all :
      (message_id : ℕ) (method : String) (params_list : List Value)
      → requests rpc send_req message_id method params_list ≡ (
        fetch_all method
            (next message_id)
            (pieces_of rpc send_req method (next message_id) params_list),
        next message_id,
      )
  unfolding requests handle_request_batch
  requests-fetch_all message_id method params_list =
      let id = next message_id in
      let pieces = pieces_of rpc send_req method id params_list in
      ap (λ (r : Batch (List Value)). (r, id))
        (ap (λ (m : Batch (Progress rpc send_req)). m >>= λ p. ok p.results)
            (send_chunks-fetch_all method id [] pieces)
          ∙ last_step (fetch_all method id pieces))

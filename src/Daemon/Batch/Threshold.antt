-- ===== src/Daemon/Batch/Threshold.antt =====
-- How many replies of a batch may fail.
use sxn_spv.Common.{
  ℕ, ◌+◌, ◌≤◌, ◌≡◌, ◌⊎◌, inl, inr, refl, sym, ap, ◌∙◌, String, List, [], ◌∷◌, ◌++◌, length, ltb,
  Bool-cases, arith,
}
use mathlib.Core.List.{append_assoc, append-nil}
use mathlib.Core.Path.{subst}
use sxn_spv.Common.Outcome.{Outcome, ok, err, panic, ◌>>=◌, bind-ok, ok-injective, Outcome-cases}
use sxn_spv.Daemon.Reply.{Rpc, ReplyError, parse_jsonrpc_reply}
use sxn_spv.Daemon.Batch.{
  BatchError, Progress, take_replies, answered, send_chunks, pieces_of, next, handle_request_batch,
}

module _ (rpc : Rpc) (send_req : List rpc.Value → String ⊎ rpc.Value) where
  open rpc use {Value}

  abbrev Batch : Type 0 → Type 0
  Batch A = Outcome (BatchError rpc send_req) A

  -- The results of the replies that are results, and how many are errors.
  abbrev pub add_result : Outcome (ReplyError rpc) Value → List Value → List Value
  add_result (ok v) vs = v ∷ vs
  add_result (err e) vs = vs
  add_result panic vs = vs

  abbrev pub add_failure : Outcome (ReplyError rpc) Value → ℕ → ℕ
  add_failure (ok v) n = n
  add_failure (err e) n = n + 1
  add_failure panic n = n + 1

  abbrev pub results_of : String → ℕ → List Value → List Value
  results_of method id [] = []
  results_of method id (reply ∷ replies) =
      add_result (parse_jsonrpc_reply rpc reply method id) (results_of method id replies)

  abbrev pub failures : String → ℕ → List Value → ℕ
  failures method id [] = 0
  failures method id (reply ∷ replies) =
      add_failure (parse_jsonrpc_reply rpc reply method id) (failures method id replies)

  -- All replies to the pieces.
  abbrev pub replies_of : List (List Value) → Batch (List Value)
  replies_of [] = ok []
  replies_of (reqs ∷ rest) = answered rpc send_req (send_req reqs) >>= λ replies.
      replies_of rest >>= λ more. ok (replies ++ more)

  -- What a number of replies has added.
  abbrev Adds : String → ℕ → ℕ → Progress rpc send_req → List Value → Progress rpc send_req → Type 0
  Adds method id threshold p replies p' =
      (p'.results ≡ p.results ++ results_of method id replies)
      × (p'.failed_requests ≡ p.failed_requests + failures method id replies)
      × (p'.failed_requests ≤ threshold)

  take_replies-ok :
      (method : String) (id threshold : ℕ) (p p' : Progress rpc send_req) (replies : List Value)
      → p.failed_requests ≤ threshold
      → take_replies rpc send_req method id threshold p replies ≡ ok p'
      → Adds method id threshold p replies p'
  unfolding take_replies
  take_replies-ok method id threshold p p' [] le done =
      subst (Adds method id threshold p []) (ok-injective done)
        (sym (append-nil p.results), omega arith, le)
  take_replies-ok method id threshold p p' (reply ∷ replies) le done =
      elim (Outcome-cases (parse_jsonrpc_reply rpc reply method id)) [
        | inl (v, good) ↦
            let (results, failed, below) =
              take_replies-ok method id threshold (record p { results = p.results ++ v ∷ [] }) p'
                replies le (rw (good, take_replies) at done) in
            rw good (
              results ∙ append_assoc p.results (v ∷ []) (results_of method id replies),
              failed,
              below,
            )
        | inr (inl (e, bad)) ↦ elim (Bool-cases (ltb threshold (p.failed_requests + 1))) [
          | inl past ↦ absurd (ground (arith, rw (bad, past, take_replies) at done))
          | inr within ↦
              let (results, failed, below) =
                take_replies-ok method id threshold
                  (record p { failed_requests = p.failed_requests + 1 }) p' replies
                  (ground (arith, within)) (rw (bad, within, take_replies) at done) in
              rw bad (results, omega (arith, failed), below)
        ]
        | inr (inr stopped) ↦ absurd (ground (arith, rw (stopped, take_replies) at done))
      ]

  results_of-append :
      (method : String) (id : ℕ) (xs ys : List Value)
      → results_of method id (xs ++ ys) ≡ results_of method id xs ++ results_of method id ys
  results_of-append method id [] ys = refl
  results_of-append method id (x ∷ xs) ys =
      let rest = results_of-append method id xs ys in
      elim (Outcome-cases (parse_jsonrpc_reply rpc x method id)) [
        | inl (v, good) ↦ rw good (ap (λ (r : List Value). v ∷ r) rest)
        | inr (inl (e, bad)) ↦ rw bad rest
        | inr (inr stopped) ↦ rw stopped rest
      ]

  failures-append :
      (method : String) (id : ℕ) (xs ys : List Value)
      → failures method id (xs ++ ys) ≡ failures method id xs + failures method id ys
  failures-append method id [] ys = omega arith
  failures-append method id (x ∷ xs) ys =
      let rest = failures-append method id xs ys in
      elim (Outcome-cases (parse_jsonrpc_reply rpc x method id)) [
        | inl (v, good) ↦ rw good rest
        | inr (inl (e, bad)) ↦ rw bad (omega (arith, rest))
        | inr (inr stopped) ↦ rw stopped (omega (arith, rest))
      ]

  send_chunks-ok :
      (method : String) (id threshold : ℕ) (p p' : Progress rpc send_req)
      (pieces : List (List Value))
      → p.failed_requests ≤ threshold
      → send_chunks rpc send_req method id threshold p pieces ≡ ok p'
      → (replies : List Value) × (replies_of pieces ≡ ok replies)
        × Adds method id threshold p replies p'
  unfolding send_chunks
  send_chunks-ok method id threshold p p' [] le done = (
    [],
    refl,
    subst (Adds method id threshold p []) (ok-injective done)
        (sym (append-nil p.results), omega arith, le),
  )
  send_chunks-ok method id threshold p p' (reqs ∷ rest) le done =
      let (replies, sent, done') = bind-ok (answered rpc send_req (send_req reqs)) _ p' done in
      let (q, taken, done'') =
        bind-ok (take_replies rpc send_req method id threshold p replies) _ p' done' in
      let (results, failed, below) = take_replies-ok method id threshold p q replies le taken in
      let (more, got, (results', failed', below')) =
        send_chunks-ok method id threshold q p' rest below done'' in
      (
        replies ++ more,
        rw (sent, got) refl,
        (
          results'
              ∙ ap (λ (r : List Value). r ++ results_of method id more) results
              ∙ append_assoc p.results (results_of method id replies) (results_of method id more)
              ∙ ap (λ (r : List Value). p.results ++ r)
                  (sym (results_of-append method id replies more)),
          omega (arith, failed, failed', failures-append method id replies more),
          below',
        ),
      )

  -- A batch that succeeds has had a reply to every piece that it sent, and its results are those of the replies
  -- that are results, in order. At most as many of the replies were errors as the threshold allows.
  pub handle_request_batch_bound :
      (message_id : ℕ) (method : String) (params_list results : List Value)
      (failure_threshold : ℕ → ℕ) (id : ℕ)
      → handle_request_batch rpc send_req message_id method params_list failure_threshold
        ≡ (ok results, id)
      → (replies : List Value) × (replies_of
            (pieces_of rpc send_req method (next message_id) params_list)
          ≡ ok replies)
        × (results ≡ results_of method (next message_id) replies)
        × (failures method (next message_id) replies ≤ failure_threshold (length params_list))
  unfolding handle_request_batch
  handle_request_batch_bound message_id method params_list results failure_threshold id done =
      let number = next message_id in
      let (p', sent, same) =
        bind-ok
          (send_chunks rpc send_req method number (failure_threshold (length params_list))
            (record { results = []; failed_requests = 0 })
            (pieces_of rpc send_req method number params_list))
          _ results (ap (λ (r : Batch (List Value) × ℕ). r.0) done) in
      let (replies, got, (all, failed, below)) =
        send_chunks-ok method number (failure_threshold (length params_list))
          (record { results = []; failed_requests = 0 }) p'
          (pieces_of rpc send_req method number params_list) (omega arith) sent in
      (replies, got, sym (ok-injective same) ∙ all, omega (arith, failed, below))

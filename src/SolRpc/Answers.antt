-- ===== src/SolRpc/Answers.antt =====
-- Every request to src/solrpc/mod.rs gets a response, if the client returns.
use sxn_spv.Common.{◌≡◌, ◌≢◌, refl, ◌⊎◌, inl, inr, String, Option, none, some, List, Option-cases}
use sxn_spv.Common.Outcome.{Outcome, Panics, ok, err, panic}
use sxn_spv.Common.Order.{bytes_ord}
use sxn_spv.Cache
use sxn_spv.JsonRpc.{Json, ResponseCache}
use sxn_spv.Sol.Types.{Solana, SolClientError, SignaturesConfig}
use sxn_spv.SolRpc.Types.{SolMethod, try_from, SolReq, SolResp, SolanaJson, Client, refuse, answer}
use sxn_spv.SolRpc.Params.{
  pubkey_param, signature_param, transaction_config_param, account_config_param,
  program_config_param, commitment_param, signatures_config_param,
}
use sxn_spv.SolRpc.Handlers.{
  given, client_response, handle_get_program_accounts, handle_get_signatures_for_address,
  handle_get_account, handle_get_slot, Response, kept, refuse_with, transaction_response,
  fetch_transaction, reread, transaction_of, handle_get_transaction, run_method, handle_request,
}

-- The call returns, with a result of which `P` holds.
abbrev pub Ends : {R : Type 0} → (R → Type 0) → Panics R → Type 0
Ends {R = R} P m = (r : R) × (m ≡ ok r) × P r

given-Ends :
    {A R : Type 0} (P : R → Type 0) (refused : String → R) (go : A → Panics R) (s : String ⊎ A)
    → ((e : String) → P (refused e))
    → ((a : A) → Ends P (go a))
    → Ends P (given refused go s)
given-Ends P refused go (inl e) off on = (refused e, refl, off e)
given-Ends P refused go (inr a) off on = on a

-- No call of the client panics.
pub record Returns {solana : Solana} (client : Client solana) : Type 0 where
  pub transaction :
      (s : solana.Signature) (c : Option solana.TransactionConfig) → client.transaction s c ≢ panic
  pub slot : (c : Option solana.CommitmentConfig) → client.slot c ≢ panic
  pub account_info :
      (k : solana.Pubkey) (c : Option solana.AccountConfig) → client.account_info k c ≢ panic
  pub signatures_for_address :
      (k : solana.Pubkey) (c : Option (SignaturesConfig solana))
      → client.signatures_for_address k c ≢ panic
  pub program_accounts :
      (k : solana.Pubkey) (c : Option solana.ProgramConfig) → client.program_accounts k c ≢ panic

-- The response is of version 2.0, has the identifier, and either an error or a result.
pub record Formed (json : Json) (i : json.Value) (resp : SolResp json) : Type 0 where
  pub version : resp.jsonrpc ≡ "2.0"
  pub same_id : resp.id ≡ i
  pub either :
      ((e : String) × (resp.error ≡ some e) × (resp.result ≡ none))
      ⊎ ((v : json.Value) × (resp.error ≡ none) × (resp.result ≡ some v))

refuse-Formed :
    (json : Json) (i : json.Value) (e : String) → Formed json i (refuse {json = json} i e)
refuse-Formed json i e = record { version = refl; same_id = refl; either = inl (e, refl, refl) }

answer-Formed : (json : Json) (i v : json.Value) → Formed json i (answer {json = json} i v)
answer-Formed json i v = record { version = refl; same_id = refl; either = inr (v, refl, refl) }

module _ {json : Json} {solana : Solana} (sj : SolanaJson json solana)
    (client : Client solana) where
  open json use {Value, as_array}
  open solana use {Signature, Transaction}

  client_response-Formed :
      {A : Type 0} (i : Value) (of : A → Value) (r : Outcome SolClientError A)
      → r ≢ panic
      → Ends (Formed json i) (client_response sj client i of r)
  client_response-Formed i of (ok a) n = (answer i (of a), refl, answer-Formed json i (of a))
  client_response-Formed i of (err e) n =
      (refuse i (sj.error_text e), refl, refuse-Formed json i (sj.error_text e))
  client_response-Formed i of panic n = absurd (n refl)

  abbrev First : Value → Response sj client → Type 0
  First i r = Formed json i r.0

  module _ (params : List Value) (i : Value) (returns : Returns client) where
    slot-Ends : Ends (Formed json i) (handle_get_slot sj client params i)
    unfolding handle_get_slot
    slot-Ends =
        given-Ends (Formed json i) (refuse i) _ (commitment_param sj params) (refuse-Formed json i)
          (λ c. client_response-Formed i sj.of_slot (client.slot c) (returns.slot c))

    account-Ends : Ends (Formed json i) (handle_get_account sj client params i)
    unfolding handle_get_account
    account-Ends =
        given-Ends (Formed json i) (refuse i) _ (pubkey_param sj params) (refuse-Formed json i)
          (λ k.
            given-Ends (Formed json i) (refuse i) _ (account_config_param sj params)
              (refuse-Formed json i)
              (λ c.
                client_response-Formed i sj.of_account (client.account_info k c)
                  (returns.account_info k c)))

    signatures-Ends : Ends (Formed json i) (handle_get_signatures_for_address sj client params i)
    unfolding handle_get_signatures_for_address
    signatures-Ends =
        given-Ends (Formed json i) (refuse i) _ (pubkey_param sj params) (refuse-Formed json i)
          (λ k.
            given-Ends (Formed json i) (refuse i) _ (signatures_config_param sj params)
              (refuse-Formed json i)
              (λ c.
                client_response-Formed i sj.of_signatures (client.signatures_for_address k c)
                  (returns.signatures_for_address k c)))

    programs-Ends : Ends (Formed json i) (handle_get_program_accounts sj client params i)
    unfolding handle_get_program_accounts
    programs-Ends =
        given-Ends (Formed json i) (refuse i) _ (pubkey_param sj params) (refuse-Formed json i)
          (λ k.
            given-Ends (Formed json i) (refuse i) _ (program_config_param sj params)
              (refuse-Formed json i)
              (λ c.
                client_response-Formed i sj.of_program_accounts (client.program_accounts k c)
                  (returns.program_accounts k c)))

    transaction_response-Formed :
        (s : Signature) (cache : ResponseCache json) (r : Outcome SolClientError Transaction)
        → r ≢ panic
        → Ends (First i) (transaction_response sj client s i cache r)
    transaction_response-Formed s cache (ok tx) n =
        ((answer i (sj.of_transaction tx), _), refl, answer-Formed json i (sj.of_transaction tx))
    transaction_response-Formed s cache (err e) n =
        ((refuse i (sj.error_text e), cache), refl, refuse-Formed json i (sj.error_text e))
    transaction_response-Formed s cache panic n = absurd (n refl)

    fetch-Ends :
        (s : Signature) (cache : ResponseCache json)
        → Ends (First i) (fetch_transaction sj client s params i cache)
    unfolding fetch_transaction
    fetch-Ends s cache =
        given-Ends (First i) (refuse_with sj client i cache) _ (transaction_config_param sj params)
          (refuse-Formed json i)
          (λ c.
            transaction_response-Formed s cache (client.transaction s c) (returns.transaction s c))

    reread-Ends :
        (s : Signature) (cache : ResponseCache json) (read : Option Transaction)
        → Ends (First i) (reread sj client s params i cache read)
    reread-Ends s cache (some tx) = (
      (answer i (sj.of_transaction tx), cache),
      refl,
      answer-Formed json i (sj.of_transaction tx),
    )
    reread-Ends s cache none = fetch-Ends s (Cache.remove cache (sj.signature_bytes s))

    transaction-Ends :
        (s : Signature) (cache : ResponseCache json)
        → Ends (First i) (transaction_of sj client s params i cache)
    unfolding transaction_of
    transaction-Ends s cache = elim (Option-cases (Cache.get cache (sj.signature_bytes s))) [
      | inl new ↦ rw (new, transaction_of) (fetch-Ends s cache)
      | inr (v, old) ↦ rw (old, transaction_of) (reread-Ends s cache (sj.to_transaction v))
    ]

    kept-Ends :
        (cache : ResponseCache json) (m : Panics (SolResp json))
        → Ends (Formed json i) m
        → Ends (First i) (kept sj client cache m)
    kept-Ends cache m (r, eq, f) = ((r, cache), rw eq refl, f)

    run-Ends :
        (cache : ResponseCache json) (method : SolMethod)
        → Ends (First i) (run_method sj client method params i cache)
    unfolding run_method handle_get_transaction
    run-Ends cache SolMethod.get_transaction =
        given-Ends (First i) (refuse_with sj client i cache) _ (signature_param sj params)
          (refuse-Formed json i) (λ s. transaction-Ends s cache)
    run-Ends cache SolMethod.get_slot =
        kept-Ends cache (handle_get_slot sj client params i) slot-Ends
    run-Ends cache SolMethod.get_account_info =
        kept-Ends cache (handle_get_account sj client params i) account-Ends
    run-Ends cache SolMethod.get_signatures_for_address =
        kept-Ends cache (handle_get_signatures_for_address sj client params i) signatures-Ends
    run-Ends cache SolMethod.get_program_accounts =
        kept-Ends cache (handle_get_program_accounts sj client params i) programs-Ends

  -- If no call of the client panics, every request gets a response, whatever is cached: of version 2.0,
  -- with the identifier of the request, and with either an error or a result.
  pub handle_request-Formed :
      (req : SolReq json) (cache : ResponseCache json)
      → Returns client
      → Ends (First req.id) (handle_request sj client req cache)
  unfolding handle_request
  handle_request-Formed req cache returns = elim (Option-cases (as_array req.params)) [
    | inl eq ↦
        rw (eq, handle_request)
          (
            refuse_with sj client req.id cache "Invalid params type, an array is required",
            refl,
            refuse-Formed json req.id "Invalid params type, an array is required",
          )
    | inr (params, eq) ↦
        rw (eq, handle_request)
          (given-Ends (First req.id) (refuse_with sj client req.id cache) _ (try_from req.method)
            (refuse-Formed json req.id) (run-Ends params req.id returns cache))
  ]

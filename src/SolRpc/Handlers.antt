-- ===== src/SolRpc/Handlers.antt =====
-- The handlers of src/solrpc/mod.rs. Each returns its response, and that of a transaction the cache as well.
-- A handler panics where the client does.
use sxn_spv.Common.{◌⊎◌, inl, inr, String, Option, none, some, List}
use sxn_spv.Common.Order.{bytes_ord}
use sxn_spv.Common.Outcome.{Outcome, Panics, ok, err, panic, ◌>>=◌}
use sxn_spv.Cache
use sxn_spv.JsonRpc.{Json, ResponseCache}
use sxn_spv.Sol.Types.{Solana, SolClientError}
use sxn_spv.SolRpc.Types.{SolMethod, try_from, SolReq, SolResp, SolanaJson, Client, refuse, answer}
use sxn_spv.SolRpc.Params.{
  pubkey_param, signature_param, transaction_config_param, account_config_param,
  program_config_param, commitment_param, signatures_config_param,
}

abbrev pub given {ℓ} :
    {A : Type 0} {R : Type ℓ} → (String → R) → (A → Panics R) → String ⊎ A → Panics R
given refused go (inl e) = ok (refused e)
given refused go (inr a) = go a

module _ {json : Json} {solana : Solana} (sj : SolanaJson json solana)
    (client : Client solana) where
  open json use {Value, as_array}
  open solana use {Signature, Transaction}

  -- The end of every handler.
  abbrev pub client_response :
      {A : Type 0} → Value → (A → Value) → Outcome SolClientError A → Panics (SolResp json)
  client_response i of (ok a) = ok (answer i (of a))
  client_response i of (err e) = ok (refuse i (sj.error_text e))
  client_response i of panic = panic

  unfoldable pub handle_get_program_accounts : List Value → Value → Panics (SolResp json)
  handle_get_program_accounts params i =
      given (refuse i)
        (λ pubkey.
          given (refuse i)
            (λ config.
              client_response i sj.of_program_accounts (client.program_accounts pubkey config))
            (program_config_param sj params))
        (pubkey_param sj params)

  unfoldable pub handle_get_signatures_for_address : List Value → Value → Panics (SolResp json)
  handle_get_signatures_for_address params i =
      given (refuse i)
        (λ pubkey.
          given (refuse i)
            (λ config.
              client_response i sj.of_signatures (client.signatures_for_address pubkey config))
            (signatures_config_param sj params))
        (pubkey_param sj params)

  unfoldable pub handle_get_account : List Value → Value → Panics (SolResp json)
  handle_get_account params i =
      given (refuse i)
        (λ pubkey.
          given (refuse i)
            (λ config. client_response i sj.of_account (client.account_info pubkey config))
            (account_config_param sj params))
        (pubkey_param sj params)

  unfoldable pub handle_get_slot : List Value → Value → Panics (SolResp json)
  handle_get_slot params i =
      given (refuse i) (λ config. client_response i sj.of_slot (client.slot config))
        (commitment_param sj params)

  abbrev pub Response : Type 0
  Response = SolResp json × ResponseCache json

  abbrev pub kept : ResponseCache json → Panics (SolResp json) → Panics Response
  kept cache resp = resp >>= λ r. ok (r, cache)

  abbrev pub refuse_with : Value → ResponseCache json → String → Response
  refuse_with i cache e = (refuse i e, cache)

  abbrev pub transaction_response :
      Signature → Value → ResponseCache json → Outcome SolClientError Transaction → Panics Response
  transaction_response signature i cache (ok tx) = ok (
    answer i (sj.of_transaction tx),
    Cache.insert cache (sj.signature_bytes signature) (sj.of_transaction tx),
  )
  transaction_response signature i cache (err e) = ok (refuse_with i cache (sj.error_text e))
  transaction_response signature i cache panic = panic

  unfoldable pub fetch_transaction :
      Signature → List Value → Value → ResponseCache json → Panics Response
  fetch_transaction signature params i cache =
      given (refuse_with i cache)
        (λ tx_config.
          transaction_response signature i cache (client.transaction signature tx_config))
        (transaction_config_param sj params)

  -- A cached value that does not read as a transaction is removed.
  abbrev pub reread :
      Signature → List Value → Value → ResponseCache json → Option Transaction → Panics Response
  reread signature params i cache (some tx) = ok (answer i (sj.of_transaction tx), cache)
  reread signature params i cache none =
      fetch_transaction signature params i (Cache.remove cache (sj.signature_bytes signature))

  unfoldable pub transaction_of :
      Signature → List Value → Value → ResponseCache json → Panics Response
  unfolding fetch_transaction
  transaction_of signature params i cache = elim (Cache.get cache (sj.signature_bytes signature)) [
    | none ↦ fetch_transaction signature params i cache
    | some tx_v ↦ reread signature params i cache (sj.to_transaction tx_v)
  ]

  unfoldable pub handle_get_transaction : List Value → Value → ResponseCache json → Panics Response
  unfolding transaction_of
  handle_get_transaction params i cache =
      given (refuse_with i cache) (λ signature. transaction_of signature params i cache)
        (signature_param sj params)

  unfoldable pub run_method : SolMethod → List Value → Value → ResponseCache json → Panics Response
  unfolding handle_get_transaction handle_get_slot handle_get_account
      handle_get_signatures_for_address handle_get_program_accounts
  run_method SolMethod.get_transaction params i cache = handle_get_transaction params i cache
  run_method SolMethod.get_slot params i cache = kept cache (handle_get_slot params i)
  run_method SolMethod.get_account_info params i cache = kept cache (handle_get_account params i)
  run_method SolMethod.get_signatures_for_address params i cache =
      kept cache (handle_get_signatures_for_address params i)
  run_method SolMethod.get_program_accounts params i cache =
      kept cache (handle_get_program_accounts params i)

  unfoldable pub handle_request : SolReq json → ResponseCache json → Panics Response
  unfolding run_method
  handle_request req cache = elim (as_array req.params) [
    | none ↦ ok (refuse_with req.id cache "Invalid params type, an array is required")
    | some params ↦
        given (refuse_with req.id cache) (λ method. run_method method params req.id cache)
          (try_from req.method)
  ]

-- ===== src/SolRpc/Config.antt =====
-- What the cache of src/solrpc/mod.rs makes of the configuration of a request for a transaction.
use sxn_spv.Common.{◌≡◌, refl, inr, Option, none, List}
use sxn_spv.Common.Order.{bytes_ord}
use sxn_spv.Common.Outcome.{ok}
use sxn_spv.Cache
use sxn_spv.Cache.Laws.{IsValid, get-insert_self}
use sxn_spv.JsonRpc.{Json, ResponseCache}
use sxn_spv.Sol.Types.{Solana}
use sxn_spv.SolRpc.Types.{SolanaJson, Client, answer}
use sxn_spv.SolRpc.Params.{signature_param, transaction_config_param}
use sxn_spv.SolRpc.Handlers.{fetch_transaction, transaction_of, handle_get_transaction}

module _ {json : Json} {solana : Solana} (sj : SolanaJson json solana) where
  -- Once a transaction that was not cached is answered, the next request for its signature, made on the
  -- cache that is left, is answered with the same value and leaves the cache as it is, whatever its
  -- configuration (one that does not read as a configuration, too), and whatever the client would say.
  pub handle_get_transaction_twice :
      (first second : Client solana) (params others : List json.Value) (i j : json.Value)
      (cache : ResponseCache json) (s : solana.Signature) (c : Option solana.TransactionConfig)
      (tx : solana.Transaction)
      → IsValid cache
      → Cache.get cache (sj.signature_bytes s) ≡ none
      → signature_param sj params ≡ inr s
      → signature_param sj others ≡ inr s
      → transaction_config_param sj params ≡ inr c
      → first.transaction s c ≡ ok tx
      → (cache' : ResponseCache json) × (handle_get_transaction sj first params i cache
          ≡ ok (answer i (sj.of_transaction tx), cache'))
        × (handle_get_transaction sj second others j cache'
            ≡ ok (answer j (sj.of_transaction tx), cache'))
  unfolding handle_get_transaction transaction_of fetch_transaction
  handle_get_transaction_twice first second params others i j cache s c tx valid new here there
        config said =
      let key = sj.signature_bytes s in
      let cache' = Cache.insert cache key (sj.of_transaction tx) in
      let kept = get-insert_self cache key (sj.of_transaction tx) valid in
      (
        cache',
        rw (here, handle_get_transaction, new, transaction_of, config, fetch_transaction, said)
            refl,
        rw (there, handle_get_transaction, kept, transaction_of, sj.transaction_read tx) refl,
      )

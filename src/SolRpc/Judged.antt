-- ===== src/SolRpc/Judged.antt =====
-- src/solrpc/mod.rs over the calls of src/chains/sol.rs: what the judge and the other nodes have said of
-- a transaction that is answered, fresh or from the cache.
use sxn_spv.Common.{
  ℕ, ◌≡◌, ◌≢◌, refl, sym, ap, ◌∙◌, ◌⊎◌, inl, inr, String, Option, some, List, [], ◌∷◌, Option-cases,
  length, arith,
}
use mathlib.Core.Path.{subst}
use sxn_spv.Common.Order.{bytes_ord}
use sxn_spv.Common.Outcome.{After, After-weaken, After-ok, Outcome, Panics, ok, err, panic}
use sxn_spv.Common.BTreeMap
use sxn_spv.Cache
use sxn_spv.JsonRpc.{Json, ResponseCache, IsBacked, insert-IsBacked}
use sxn_spv.Sol.Types.{Solana, SolClientError}
use sxn_spv.Sol.Judge.Verdicts.{get_transaction_iff}
use sxn_spv.Sol.Collect.Decided.{deal_get_transaction-IsElected}
use sxn_spv.SolRpc.Nodes.{Nodes, event_transaction, client_of, event_of-some, AgreedOnce}
use sxn_spv.SolRpc.Types.{SolMethod, try_from, SolReq, SolResp, SolanaJson, Client}
use sxn_spv.SolRpc.Params.{signature_param, transaction_config_param}
use sxn_spv.SolRpc.Handlers.{
  given, kept, refuse_with, transaction_response, fetch_transaction, transaction_of,
  handle_get_transaction, run_method, handle_request,
}

given-After :
    {A R : Type 0} (P : R → Type 0) (refused : String → R) (go : A → Panics R) (s : String ⊎ A)
    → ((e : String) → P (refused e))
    → ((a : A) → After P (go a))
    → After P (given refused go s)
given-After P refused go (inl e) off on = off e
given-After P refused go (inr a) off on = on a

module _ {json : Json} {solana : Solana} (sj : SolanaJson json solana) where
  open json use {Value, as_array}
  open solana use {Signature, Transaction}

  -- A cache that requests have led to, with what the nodes said at each request to Solana, the last first.
  -- The handlers of the other chains write to the same cache, under the 32 bytes of a hash or the 8 bytes of a
  -- height: any value may come under a key that has not the 64 bytes of a signature.
  pub data Reached : List (Nodes solana) → ResponseCache json → Type 0 where
    fresh : (size : ℕ) → Reached [] (Cache.new size)
    served :
        (history : List (Nodes solana)) (nodes : Nodes solana) (req : SolReq json)
        (cache cache' : ResponseCache json) (resp : SolResp json)
        → Reached history cache
        → handle_request sj (client_of nodes) req cache ≡ ok (resp, cache')
        → Reached (nodes ∷ history) cache'
    written_by_others :
        (history : List (Nodes solana)) (key : List ℕ) (v : Value) (cache : ResponseCache json)
        → Reached history cache
        → length key ≢ 64
        → Reached history (Cache.insert cache key v)

  -- The value is that of a transaction on which the nodes agreed once, for the signature of this key.
  abbrev Known : List (Nodes solana) → List ℕ → Value → Type 0
  Known history k v =
      (s : Signature)
      → sj.signature_bytes s ≡ k
      → (tx : Transaction) × (sj.of_transaction tx ≡ v) × AgreedOnce history s tx

  abbrev Backed : List (Nodes solana) → ResponseCache json → Type 0
  Backed history = IsBacked json (Known history)

  fresh-Backed : (size : ℕ) → Backed [] (Cache.new size)
  unfolding Cache.get BTreeMap.get
  fresh-Backed size = record {
    valid = record { sorted = tt; bounded = omega arith };
    backed = λ k v at. absurd (ground arith);
  }

  later :
      (history : List (Nodes solana)) (n : Nodes solana) (cache : ResponseCache json)
      → Backed history cache
      → Backed (n ∷ history) cache
  later history n cache b = record {
    valid = b.valid;
    backed = λ k v at s same.
        let (tx, written, agreed) = b.backed k v at s same in (tx, written, inr agreed);
  }

  -- What the result of a response stands for.
  abbrev Result : List (Nodes solana) → Signature → SolResp json → Type 0
  Result history s resp =
      (v : Value)
      → resp.result ≡ some v
      → (tx : Transaction) × (sj.of_transaction tx ≡ v) × AgreedOnce history s tx

  module _ (history : List (Nodes solana)) (nodes : Nodes solana) where
    abbrev now : List (Nodes solana)
    now = nodes ∷ history

    abbrev client : Client solana
    client = client_of nodes

    abbrev SoundAt : Signature → SolResp json × ResponseCache json → Type 0
    SoundAt s (resp, cache) = Backed now cache × Result now s resp

    -- If the handler returns, the cache is backed, and so is the result.
    abbrev Sound : Signature → Panics (SolResp json × ResponseCache json) → Type 0
    Sound s = After (SoundAt s)

    own :
        (s : Signature) (tx : Transaction)
        → AgreedOnce now s tx
        → Known now (sj.signature_bytes s) (sj.of_transaction tx)
    own s tx agreed t same = (
      tx,
      refl,
      subst (λ (x : Signature). AgreedOnce now x tx) (sj.signature_bytes_injective s t (sym same))
          agreed,
    )

    module _ (s : Signature) (params : List Value) (i : Value) where
      response-Sound :
          (c : Option solana.TransactionConfig) (cache : ResponseCache json)
          (said : Outcome SolClientError Transaction)
          → client.transaction s c ≡ said
          → Backed now cache
          → Sound s (transaction_response sj client s i cache said)
      response-Sound c cache (ok tx) eq b =
          let (open_, judged, event) =
            (get_transaction_iff nodes.sent (nodes.judge_transaction s c)
                (event_transaction nodes s c) tx).0
              eq in
          let elected =
            deal_get_transaction-IsElected solana nodes.rpc_num nodes.broadcast
              (nodes.transaction_turns s c) tx (event_of-some _ _ event) in
          let agreed : AgreedOnce now s tx = inl (c, judged, elected) in
          (
            insert-IsBacked json (Known now) cache (sj.signature_bytes s) (sj.of_transaction tx)
                (own s tx agreed) b,
            λ v at. (tx, cc, agreed),
          )
      response-Sound c cache (err e) eq b = (b, λ v at. cc)
      response-Sound c cache panic eq b = tt

      fetch-Sound :
          (cache : ResponseCache json)
          → Backed now cache
          → Sound s (fetch_transaction sj client s params i cache)
      unfolding fetch_transaction
      fetch-Sound cache b =
          given-After (SoundAt s) (refuse_with sj client i cache) _
            (transaction_config_param sj params) (λ e. (b, λ v at. cc))
            (λ c. response-Sound c cache (client.transaction s c) refl b)

      transaction_of-Sound :
          (cache : ResponseCache json)
          → Backed now cache
          → Sound s (transaction_of sj client s params i cache)
      unfolding transaction_of
      transaction_of-Sound cache b = elim (Option-cases (Cache.get cache (sj.signature_bytes s))) [
        | inl new ↦ rw (new, transaction_of) (fetch-Sound cache b)
        | inr (v, old) ↦
            let (tx, written, agreed) = b.backed (sj.signature_bytes s) v old s refl in
            let read : sj.to_transaction v ≡ some tx =
              ap sj.to_transaction (sym written) ∙ sj.transaction_read tx in
            rw (old, transaction_of, read) (b, λ w at. (tx, cc, agreed))
      ]

    kept-Backed :
        (cache : ResponseCache json) (m : Panics (SolResp json))
        → Backed now cache
        → After (λ r. Backed now r.1) (kept sj client cache m)
    kept-Backed cache (ok r) b = b
    kept-Backed cache (err e) b = absurd e
    kept-Backed cache panic b = tt

    transaction-Backed :
        (params : List Value) (i : Value) (cache : ResponseCache json)
        → Backed now cache
        → After (λ r. Backed now r.1) (handle_get_transaction sj client params i cache)
    unfolding handle_get_transaction
    transaction-Backed params i cache b =
        given-After (λ r. Backed now r.1) (refuse_with sj client i cache) _
          (signature_param sj params) (λ e. b)
          (λ s.
            After-weaken (SoundAt s) (λ r. Backed now r.1) (λ r p. p.0)
              (transaction_of sj client s params i cache) (transaction_of-Sound s params i cache b))

    run-Backed :
        (params : List Value) (i : Value) (cache : ResponseCache json) (method : SolMethod)
        → Backed now cache
        → After (λ r. Backed now r.1) (run_method sj client method params i cache)
    unfolding run_method
    run-Backed params i cache SolMethod.get_transaction b = transaction-Backed params i cache b
    run-Backed params i cache SolMethod.get_slot b = kept-Backed cache _ b
    run-Backed params i cache SolMethod.get_account_info b = kept-Backed cache _ b
    run-Backed params i cache SolMethod.get_signatures_for_address b = kept-Backed cache _ b
    run-Backed params i cache SolMethod.get_program_accounts b = kept-Backed cache _ b

    request-Backed :
        (req : SolReq json) (cache : ResponseCache json)
        → Backed now cache
        → After (λ r. Backed now r.1) (handle_request sj client req cache)
    unfolding handle_request
    request-Backed req cache b = elim (Option-cases (as_array req.params)) [
      | inl eq ↦ rw (eq, handle_request) b
      | inr (params, eq) ↦
          rw (eq, handle_request)
            (given-After (λ r. Backed now r.1) (refuse_with sj client req.id cache) _
              (try_from req.method) (λ e. b) (λ method. run-Backed params req.id cache method b))
    ]

  other-Backed :
      (history : List (Nodes solana)) (key : List ℕ) (v : Value) (cache : ResponseCache json)
      → length key ≢ 64
      → Backed history cache
      → Backed history (Cache.insert cache key v)
  other-Backed history key v cache other b =
      insert-IsBacked json (Known history) cache key v
        (λ s same. absurd (other (omega (arith, sj.signature_bytes_length s, ap length same)))) b

  Reached-Backed :
      {history : List (Nodes solana)} {cache : ResponseCache json}
      → Reached history cache
      → Backed history cache
  Reached-Backed (fresh size) = fresh-Backed size
  Reached-Backed (served history n req cache cache' resp before eq) =
      After-ok (λ r. Backed (n ∷ history) r.1) _ (resp, cache') eq
        (request-Backed history n req cache (later history n cache (Reached-Backed before)))
  Reached-Backed (written_by_others history key v cache before other) =
      other-Backed history key v cache other (Reached-Backed before)

  -- A request for the transaction with a signature.
  pub record AsksTransaction (req : SolReq json) (s : Signature) : Type 0 where
    pub method_is : req.method ≡ "getTransaction"
    pub params : List Value
    pub params_are : as_array req.params ≡ some params
    pub signature_is : signature_param sj params ≡ inr s

  -- Whatever requests to Solana came before, one after the other, with whatever came from the nodes at each,
  -- and whatever the handlers of the other chains wrote to the cache in between, under keys that are no
  -- signatures: a result for the transaction with a signature is, as it is written, a transaction that the
  -- judge gave for that signature, with some configuration, at this request or at an earlier one, and that the
  -- vote of the other nodes elected then. As many different votes as there are other nodes had come, each from
  -- the node that it was counted for, and strictly more of them were for this transaction than for any other.
  pub handle_request-agreed :
      (history : List (Nodes solana)) (nodes : Nodes solana) (req : SolReq json) (s : Signature)
      (cache cache' : ResponseCache json) (resp : SolResp json) (v : Value)
      → Reached history cache
      → AsksTransaction req s
      → handle_request sj (client_of nodes) req cache ≡ ok (resp, cache')
      → resp.result ≡ some v
      → (tx : Transaction) × (sj.of_transaction tx ≡ v) × AgreedOnce (nodes ∷ history) s tx
  unfolding handle_request run_method handle_get_transaction try_from
  handle_request-agreed history nodes req s cache cache' resp v reached a eq at =
      let b = later history nodes cache (Reached-Backed reached) in
      let direct : handle_request sj (client_of nodes) req cache
          ≡ transaction_of sj (client_of nodes) s a.params req.id cache =
        rw
          (
            a.params_are, handle_request, a.method_is, try_from, run_method, a.signature_is,
            handle_get_transaction,
          )
          refl in
      (After-ok (SoundAt history nodes s) _ (resp, cache') (sym direct ∙ eq)
          (transaction_of-Sound history nodes s a.params req.id cache b)).1
        v at

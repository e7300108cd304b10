-- ===== src/Sol/Collect/Decided.antt =====
-- What a transaction in the response of `deal_get_transaction` says of the nodes, whatever came and went in
-- between: as many different votes as there are nodes were received, and it is the preferred one.
use sxn_spv.Common.{
  ℕ, ◌≡◌, ◌≢◌, refl, ◌⊎◌, inl, inr, true, false, Bool, String, Option, some, List, [], ◌∷◌, length,
  leb, ◌==◌, ==_iff, Bool-cases, All, if◌then◌else◌, arith,
}
use sxn_spv.Common.Outcome.{Outcome, Panics, ok}
use sxn_spv.Common.Classes.{nat_eq, bytes_eq, string_eq}
use sxn_spv.Sol.Types.{
  took_more_than_60s, SolClientError, timed_out, Answer, done, failed, Json, Serde, Solana,
  get_transaction,
}
use sxn_spv.Sol.Votes.{deal_get_transaction_res}
use sxn_spv.Sol.Votes.Results.{encoded, Preferred, deal_get_transaction_res_iff}
use sxn_spv.Sol.Collect.{
  Turn, quiet, received, contains, insert_vote, respond, collect, deal, deal_get_transaction,
}
use sxn_spv.Sol.Collect.Rounds.{voters}
use sxn_spv.Sol.Collect.Elections.{vote, respond-done}
use sxn_spv.Sol.Collect.Parsed.{get_transaction-injective}

module _ {A : Type 0} where
  -- The answer came from this node.
  abbrev pub Given : List (A × String) → A × String → Type 0
  Given [] v = ⊥
  Given (w ∷ votes) v = (v ≡ w) ⊎ Given votes v

  -- No vote stands in the list twice.
  abbrev pub Different : List (A × String) → Type 0
  Different [] = Unit
  Different (v ∷ votes) = All (λ w. w ≢ v) votes × Different votes

  votes-Given :
      (votes given : List (A × String))
      → ((v : A × String) → Given votes v → Given given v)
      → All (Given given) votes
  votes-Given [] given each = tt
  votes-Given (v ∷ votes) given each =
      (each v (inl refl), votes-Given votes given (λ w there. each w (inr there)))

module _ {A : Type 0} (serde : Serde A) where
  length-encoded : (votes : List (A × String)) → length (encoded serde votes) ≡ length votes
  length-encoded [] = refl
  length-encoded (v ∷ votes) = omega (arith, length-encoded votes)

  -- A vote that the set does not contain is none of the votes in it.
  not_contained :
      (a : A) (from : String) (votes : List (A × String))
      → contains (serde.to_json a) from (encoded serde votes) ≡ false
      → All (λ w. w ≢ (a, from)) votes
  not_contained a from [] new = tt
  not_contained a from ((b, other) ∷ votes) new = (
    λ same.
        let text : serde.to_json b ≡ serde.to_json a = cc (same) in
        let node : other ≡ from = cc (same) in
        ground (
          arith,
          new,
          (bytes_eq.beq_iff (serde.to_json b) (serde.to_json a)).1 text,
          (string_eq.beq_iff other from).1 node,
        ),
    not_contained a from votes (ground (arith, new)),
  )

  -- The votes of a set: different ones, of which something holds.
  record IsVotes (Came : A × String → Type 0) (votes : List (A × String)) : Type 0 where
    pub different : Different votes
    pub came : All Came votes

  insert_vote-encoded :
      (Came : A × String → Type 0) (a : A) (from : String) (votes : List (A × String))
      → Came (a, from)
      → IsVotes Came votes
      → (votes' : List (A × String)) × (insert_vote from (serde.to_json a) (encoded serde votes)
          ≡ encoded serde votes')
        × IsVotes Came votes'
  unfolding insert_vote
  insert_vote-encoded Came a from votes now v =
      elim (Bool-cases (contains (serde.to_json a) from (encoded serde votes))) [
        | inl old ↦ (votes, rw old refl, v)
        | inr new ↦ (
          (a, from) ∷ votes,
          rw new refl,
          record {
            different = (not_contained a from votes new, v.different);
            came = (now, v.came);
          },
        )
      ]

  module _ {E : Type 0} (event : Answer A → E) (inj : (x y : Answer A) → event x ≡ event y → x ≡ y)
      (finish : List (Json × String) → Outcome SolClientError A) (rpc_num : ℕ)
      (Came : A × String → Type 0) where
    -- A response with a value is the result of as many votes as there are nodes.
    abbrev Decided : A → Type 0
    Decided a =
        (votes : List (A × String)) × (length votes ≡ rpc_num)
        × IsVotes Came votes
        × (finish (encoded serde votes) ≡ ok a)

    failed-done :
        (e : SolClientError) (a : A)
        → ◌≡◌ {A = Option (Panics E)} (some (ok (event (failed e)))) (some (ok (event (done a))))
        → ⊥
    failed-done e a h =
        let same : event (failed e) ≡ event (done a) = cc in
        let eq : failed e ≡ done a = inj (failed e) (done a) same in cc

    collect-Decided :
        (turns : List (Turn A)) (votes : List (A × String)) (a : A)
        → All Came (voters turns)
        → IsVotes Came votes
        → collect event event (vote serde.to_json) length finish rpc_num turns (encoded serde votes)
          ≡ some (ok (event (done a)))
        → Decided a
    unfolding collect
    collect-Decided [] votes a came v h = absurd (ground (arith, h))
    collect-Decided (quiet ∷ turns) votes a came v h = collect-Decided turns votes a came v h
    collect-Decided (received secs (failed e) from ∷ turns) votes a came v h =
        absurd (failed-done _ a h)
    collect-Decided (received secs (done x) from ∷ turns) votes a came v h =
        let (votes', grown, v') = insert_vote-encoded Came x from votes came.0 v in
        let size = length-encoded votes' in
        let again = collect-Decided turns votes' a came.1 v' in
        let set = encoded serde votes' in
        let next : (if length set == rpc_num
              then some (respond event (finish set))
              else if leb 60 secs
              then some (ok (event (failed (timed_out took_more_than_60s))))
              else collect event event (vote serde.to_json) length finish rpc_num turns set)
            ≡ some (ok (event (done a))) =
          rw grown at h in
        elim (Bool-cases (length set == rpc_num)) [
          | inl full ↦
              let result = (respond-done event inj (finish set) a).0 (rw full at next) in
              (votes', omega (arith, size, (==_iff (length set) rpc_num).0 full), v', result)
          | inr few ↦ elim (Bool-cases (leb 60 secs)) [
            | inl late ↦ absurd (failed-done _ a (rw (few, late) at next))
            | inr early ↦ again (rw (few, early) at next)
          ]
        ]

    deal-Decided :
        (broadcast : Bool) (turns : List (Turn A)) (a : A)
        → All Came (voters turns)
        → deal event event (vote serde.to_json) length finish rpc_num broadcast turns []
          ≡ some (ok (event (done a)))
        → Decided a
    unfolding deal
    deal-Decided true turns a came h =
        collect-Decided turns [] a came (record { different = tt; came = tt }) h
    deal-Decided false turns a came h = absurd (failed-done _ a h)

module _ (solana : Solana) where
  open solana use {Transaction}

  -- As many different votes as there are nodes were received, each from the node that it is counted for, and
  -- strictly more of them are for this transaction than for any other.
  pub record IsElected (rpc_num : ℕ) (turns : List (Turn Transaction)) (tx : Transaction)
      : Type 0 where
    pub votes : List (Transaction × String)
    pub enough : length votes ≡ rpc_num
    pub different : Different votes
    pub came : All (Given (voters turns)) votes
    pub preferred : Preferred solana.transaction_serde tx votes

  -- Whatever came from the nodes, in whatever time: a transaction in the response is elected.
  pub deal_get_transaction-IsElected :
      (rpc_num : ℕ) (broadcast : Bool) (turns : List (Turn Transaction)) (tx : Transaction)
      → deal_get_transaction solana rpc_num broadcast turns ≡ some (ok (get_transaction (done tx)))
      → IsElected rpc_num turns tx
  unfolding deal_get_transaction
  deal_get_transaction-IsElected rpc_num broadcast turns tx responds =
      let serde = solana.transaction_serde in
      let (votes, enough, are, won) =
        deal-Decided serde get_transaction (get_transaction-injective solana)
          (deal_get_transaction_res serde) rpc_num (Given (voters turns)) broadcast turns tx
          (votes-Given (voters turns) (voters turns) (λ v there. there)) responds in
      record {
        votes = votes;
        enough = enough;
        different = are.different;
        came = are.came;
        preferred = (deal_get_transaction_res_iff serde tx votes).0 won;
      }

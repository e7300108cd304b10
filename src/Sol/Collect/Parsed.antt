-- ===== src/Sol/Collect/Parsed.antt =====
-- What `deal_get_account_info` and `deal_get_transaction` respond with, where the answers are put to the
-- vote as texts.
use sxn_spv.Common.{
  ◌<◌, ◌≡◌, ◌↔◌, refl, sym, ap, ◌∙◌, true, String, Option, some, List, [], ◌∷◌, map, length, All,
  arith,
}
use sxn_spv.Common.Outcome.{Outcome, ok}
use sxn_spv.Common.Classes.{bytes_eq}
use sxn_spv.Common.Tally.{count}
use sxn_spv.Sol.Types.{
  SolClientError, Answer, done, Json, Serde, Solana, ResponseEvent, get_transaction,
  get_account_info,
}
use sxn_spv.Sol.Votes.{answers, deal_get_transaction_res, deal_get_account_res}
use sxn_spv.Sol.Votes.Results.{
  encoded, Preferred, deal_get_transaction_res_iff, deal_get_account_res_iff,
}
use sxn_spv.Sol.Collect.{Turn, deal, slot_error, deal_get_transaction, deal_get_account_info}
use sxn_spv.Sol.Collect.Rounds.{voters, InTime, add_all}
use sxn_spv.Sol.Collect.Elections.{
  Fresh, DistinctNodes, insert_vote-Fresh, vote, Fresh-insert, no-votes, voted, count-voted,
  elected, respond-done,
}

module _ {A : Type 0} (serde : Serde A) where
  reverse_onto : List (A × String) → List (A × String) → List (A × String)
  reverse_onto [] set = set
  reverse_onto (v ∷ votes) set = reverse_onto votes (v ∷ set)

  add_all-encoded :
      (votes set : List (A × String))
      → DistinctNodes votes
      → All (λ v. Fresh v.1 (encoded serde set)) votes
      → add_all (vote serde.to_json) votes (encoded serde set)
        ≡ encoded serde (reverse_onto votes set)
  unfolding reverse_onto
  add_all-encoded [] set d all_ = refl
  add_all-encoded ((a, from) ∷ votes) set d all_ =
      let new = insert_vote-Fresh (serde.to_json a) from (encoded serde set) all_.0 in
      let rest =
        add_all-encoded votes ((a, from) ∷ set) d.1 (
          Fresh-insert serde.to_json (serde.to_json a) from (encoded serde set) votes d.0 all_.1) in
      rw new rest

  voted-encoded :
      (votes : List (A × String))
      → DistinctNodes votes
      → voted serde.to_json votes ≡ encoded serde (reverse_onto votes [])
  unfolding voted
  voted-encoded votes d = add_all-encoded votes [] d (no-votes serde.to_json votes)

  answers-encoded :
      (votes : List (A × String))
      → answers (encoded serde votes) ≡ map serde.to_json (answers votes)
  answers-encoded [] = refl
  answers-encoded ((a, from) ∷ votes) = ap (◌∷◌ (serde.to_json a)) (answers-encoded votes)

  count-reverse_onto :
      (t : Json) (votes : List (A × String))
      → DistinctNodes votes
      → count t (answers (encoded serde (reverse_onto votes [])))
        ≡ count t (answers (encoded serde votes))
  count-reverse_onto t votes d =
      ap (λ set. count t (answers set)) (sym (voted-encoded votes d))
      ∙ count-voted serde.to_json t votes d
      ∙ ap (count t) (sym (answers-encoded votes))

  -- The order of the votes does not matter.
  Preferred-reverse_onto :
      (a : A) (votes : List (A × String))
      → DistinctNodes votes
      → Preferred serde a (reverse_onto votes []) ↔ Preferred serde a votes
  Preferred-reverse_onto a votes d =
      let same = λ (b : A). count-reverse_onto (serde.to_json b) votes d in
      (
        λ (some_, more).
            (omega (arith, some_, same a), λ b other. omega (arith, more b other, same a, same b)),
        λ (some_, more).
            (omega (arith, some_, same a), λ b other. omega (arith, more b other, same a, same b)),
      )

  -- The loop that ends with a vote on texts.
  parsed_election :
      {E : Type 0} (on_error event : Answer A → E)
      (finish : List (Json × String) → Outcome SolClientError A)
      → ((x y : Answer A) → event x ≡ event y → x ≡ y)
      → ((a : A) (votes : List (A × String))
          → (finish (encoded serde votes) ≡ ok a) ↔ Preferred serde a votes)
      → (turns : List (Turn A)) (a : A) → All InTime turns
      → DistinctNodes (voters turns)
      → 0 < length (voters turns)
      → (deal on_error event
            (vote serde.to_json)
            length
            finish
            (length (voters turns))
            true
            turns
            []
          ≡ some (ok (event (done a))))
        ↔ Preferred serde a (voters turns)
  parsed_election on_error event finish inj wins turns a t d pos =
      let ends = elected serde.to_json on_error event finish turns t d pos in
      let set = voted-encoded (voters turns) d in
      let responds = respond-done event inj (finish (voted serde.to_json (voters turns))) a in
      let won = wins a (reverse_onto (voters turns) []) in
      let order = Preferred-reverse_onto a (voters turns) d in
      (
        λ h. order.0 (won.0 (sym (ap finish set) ∙ responds.0 (sym ends ∙ h))),
        λ best. ends ∙ responds.1 (ap finish set ∙ won.1 (order.1 best)),
      )

module _ (solana : Solana) where
  open solana use {Account, Transaction}

  pub get_transaction-injective :
      (x y : Answer Transaction)
      → ◌≡◌ {A = ResponseEvent solana} (get_transaction x) (get_transaction y)
      → x ≡ y
  get_transaction-injective x y h = cc

  get_account_info-injective :
      (x y : Answer (Option Account))
      → ◌≡◌ {A = ResponseEvent solana} (get_account_info x) (get_account_info y)
      → x ≡ y
  get_account_info-injective x y h = cc

  -- Once every node has answered, each for itself and in time, `deal_get_transaction` responds with a
  -- transaction exactly when strictly more nodes gave it than gave any other.
  pub deal_get_transaction_iff :
      (turns : List (Turn Transaction)) (tx : Transaction)
      → All InTime turns
      → DistinctNodes (voters turns)
      → 0 < length (voters turns)
      → (deal_get_transaction solana (length (voters turns)) true turns
          ≡ some (ok (get_transaction (done tx))))
        ↔ Preferred solana.transaction_serde tx (voters turns)
  unfolding deal_get_transaction
  deal_get_transaction_iff turns tx t d pos =
      parsed_election solana.transaction_serde get_transaction get_transaction
        (deal_get_transaction_res solana.transaction_serde) get_transaction-injective
        (deal_get_transaction_res_iff solana.transaction_serde) turns tx t d pos

  -- Once every node has answered, each for itself and in time, `deal_get_account_info` responds with
  -- an account, or that there is none, exactly when strictly more nodes gave that answer than gave any
  -- other.
  pub deal_get_account_info_iff :
      (turns : List (Turn (Option Account))) (account : Option Account)
      → All InTime turns
      → DistinctNodes (voters turns)
      → 0 < length (voters turns)
      → (deal_get_account_info solana (length (voters turns)) true turns
          ≡ some (ok (get_account_info (done account))))
        ↔ Preferred solana.account_serde account (voters turns)
  unfolding deal_get_account_info
  deal_get_account_info_iff turns account t d pos =
      parsed_election solana.account_serde slot_error get_account_info
        (deal_get_account_res solana.account_serde) get_account_info-injective
        (deal_get_account_res_iff solana.account_serde) turns account t d pos

-- ===== src/Sol/Votes.antt =====
-- The five `deal_*_res` functions of src/chains/sol.rs. Three of them take the answer that most nodes
-- gave, two the items that every node listed. A set is a list of its elements in some order.
pub mod Plurality
pub mod Results
pub mod Agreement
use sxn_spv.Common.{
  ℕ, ◌+◌, String, ◌≡◌, Bool, Option, none, some, List, [], ◌∷◌, ◌++◌, map, length, keep, ltb, leb,
  ◌==◌, if◌then◌else◌,
}
use sxn_spv.Common.Outcome.{Outcome, ok, err, ◌>>=◌, ok_or, unwrap}
use sxn_spv.Common.Classes.{Eq, nat_eq, bytes_eq}
use sxn_spv.Common.HashMap.{HashMap}
use sxn_spv.Common.Tally.{tally}
use sxn_spv.Sol.Types.{
  Message, unexpected_max_count_elements, no_most_suitable_account, no_most_suitable_slot,
  no_most_suitable_tx, SolClientError, custom, Json, Serde,
}

module _ {ℓ} {A : Type ℓ} where
  -- `counts.values().cloned().max().unwrap_or(0)`
  unfoldable pub max_value : HashMap A ℕ → ℕ
  max_value [] = 0
  max_value ((a, n) ∷ m) = let best = max_value m in if leb n best then best else n

  -- `counts.values().filter(|&&count| count == max_count).count()`
  unfoldable pub count_value : ℕ → HashMap A ℕ → ℕ
  count_value max_count [] = 0
  count_value max_count ((a, n) ∷ m) = (if n == max_count then 1 else 0) + count_value max_count m

  -- `max_by_key`: the last of the entries with the largest count.
  later_max : A × ℕ → Option (A × ℕ) → A × ℕ
  later_max x none = x
  later_max x (some y) = if leb x.1 y.1 then y else x

  unfoldable pub max_by_count : HashMap A ℕ → Option (A × ℕ)
  unfolding later_max
  max_by_count [] = none
  max_by_count (x ∷ m) = some (later_max x (max_by_count m))

  abbrev key_of : Option (A × ℕ) → Option A
  key_of none = none
  key_of (some x) = some x.0

  -- What the three functions do with their counts.
  unfoldable pub most_counted : Message → HashMap A ℕ → Outcome SolClientError A
  most_counted not_found counts =
      let max_count_elements = count_value (max_value counts) counts in
      if ltb 1 max_count_elements
      then err (custom (unexpected_max_count_elements max_count_elements))
      else ok_or (custom not_found) (key_of (max_by_count counts))

-- The answers, without where they came from.
abbrev pub answers {ℓ} : {A : Type ℓ} → List (A × String) → List A
answers = map (λ v. v.0)

unfoldable pub deal_get_slot_res : List (ℕ × String) → Outcome SolClientError ℕ
deal_get_slot_res slots = most_counted no_most_suitable_slot (tally (answers slots))

module _ {Tx : Type 0} (serde : Serde Tx) where
  unfoldable pub deal_get_transaction_res : List (Json × String) → Outcome SolClientError Tx
  deal_get_transaction_res txs = do
    tx ← most_counted no_most_suitable_tx (tally (answers txs))
    unwrap (serde.from_json tx)

module _ {Account : Type 0} (serde : Serde (Option Account)) where
  unfoldable pub deal_get_account_res :
      List (Json × String) → Outcome SolClientError (Option Account)
  deal_get_account_res accounts = do
    account ← most_counted no_most_suitable_account (tally (answers accounts))
    unwrap (serde.from_json account)

module _ {A : Type 0} (serde : Serde A) where
  -- The texts that all the lists together hold as often as there are lists.
  abbrev pub texts : List A → List Json
  texts = map serde.to_json

  unfoldable pub all_texts : HashMap String (List A) → List Json
  all_texts [] = []
  all_texts ((from, items) ∷ rest) = texts items ++ all_texts rest

  unfoldable pub counted_as : ℕ → HashMap Json ℕ → List Json
  counted_as n m = map (λ e. e.0) (keep (λ e. e.1 == n) m)

  -- `serde_json::from_str(&k).unwrap()` of each.
  unfoldable pub parse_all : List Json → Outcome SolClientError (List A)
  parse_all [] = ok []
  parse_all (t ∷ ts) = do item ← unwrap (serde.from_json t); rest ← parse_all ts; ok (item ∷ rest)

  unfoldable pub deal_get_program_accounts_res :
      HashMap String (List A) → Outcome SolClientError (List A)
  unfolding all_texts counted_as parse_all
  deal_get_program_accounts_res accounts =
      let members_num = length accounts in
      parse_all (counted_as members_num (tally (all_texts accounts)))

  unfoldable pub deal_get_signatures_for_address_res :
      HashMap String (List A) → Outcome SolClientError (List A)
  unfolding all_texts counted_as parse_all
  deal_get_signatures_for_address_res signatures =
      let from_num = length signatures in
      parse_all (counted_as from_num (tally (all_texts signatures)))

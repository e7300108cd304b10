-- ===== src/Sol/Collect.antt =====
-- The five `deal_*` loops of src/chains/sol.rs: a task is broadcast to the nodes' workers, their answers
-- are collected until every node has given one, and one response is sent. A loop reads a list of turns;
-- `none` is a loop that has not responded by the end of them.
pub mod Rounds
pub mod Elections
pub mod Parsed
pub mod Failures
pub mod Decided
use sxn_spv.Common.{
  ℕ, String, Option, none, some, List, [], ◌∷◌, Bool, true, false, length, ltb, leb, ◌==◌, ◌&&◌,
  ◌||◌, if◌then◌else◌,
}
use sxn_spv.Common.Outcome.{Outcome, Panics, ok, err, panic}
use sxn_spv.Common.Classes.{Eq, nat_eq, bytes_eq, string_eq}
use sxn_spv.Common.HashMap
use sxn_spv.Common.HashMap.{HashMap}
use sxn_spv.Sol.Types.{
  Message, received_error_from, took_more_than_60s, broadcast_failed, SolClientError, internal,
  timed_out, Answer, done, failed, Json, Serde, Solana, ResponseEvent, get_transaction, get_slot,
  get_account_info, get_signatures_for_address, get_program_accounts,
}
use sxn_spv.Sol.Votes.{
  deal_get_slot_res, deal_get_transaction_res, deal_get_account_res, deal_get_program_accounts_res,
  deal_get_signatures_for_address_res,
}

-- One turn of a loop: the wait of a second ends without a message, or a message from a node comes,
-- so many whole seconds after the start.
pub data Turn (A : Type 0) : Type 0 where
  quiet : Turn A
  received : ℕ → Answer A → String → Turn A

-- `HashSet<(A, String)>`
module _ {ℓ} {A : Type ℓ} ⦃e : Eq A⦄ where
  abbrev pub contains : A → String → List (A × String) → Bool
  contains a from [] = false
  contains a from ((b, other) ∷ set) =
      (e.beq b a && string_eq.beq other from) || contains a from set

  unfoldable pub insert_vote : String → A → List (A × String) → List (A × String)
  insert_vote from a set = if contains a from set then set else (a, from) ∷ set

-- The response that carries what was made of the answers.
abbrev pub respond : {E R : Type 0} → (Answer R → E) → Outcome SolClientError R → Panics E
respond event (ok r) = ok (event (done r))
respond event (err e) = ok (event (failed e))
respond event panic = panic

-- The loop that the five share. `on_error` is the response to a node's error, `event` the response
-- to everything else, `add` puts an answer with the others, `size` is `res.len()`, and `finish` makes the
-- result of the answers.
module _ {A S R E : Type 0} (on_error event : Answer R → E) (add : String → A → S → S)
    (size : S → ℕ) (finish : S → Outcome SolClientError R) (rpc_num : ℕ) where
  unfoldable pub collect : List (Turn A) → S → Option (Panics E)
  collect [] res = none
  collect (quiet ∷ turns) res = collect turns res
  collect (received secs (failed e) from ∷ turns) res =
      some (ok (on_error (failed (internal (received_error_from from)))))
  collect (received secs (done a) from ∷ turns) res =
      let rest = collect turns (add from a res) in
      if size (add from a res) == rpc_num
      then some (respond event (finish (add from a res)))
      else if leb 60 secs
      then some (ok (event (failed (timed_out took_more_than_60s))))
      else rest

  -- A task that cannot be broadcast is answered at once.
  unfoldable pub deal : Bool → List (Turn A) → S → Option (Panics E)
  deal true turns res = collect turns res
  deal false turns res = some (ok (event (failed (internal broadcast_failed))))

-- A node's error is answered under `GetSlot`.
abbrev pub slot_error : {solana : Solana} → Answer (Option solana.Account) → ResponseEvent solana
slot_error (done account) = get_account_info (done account)
slot_error (failed e) = get_slot (failed e)

module _ (solana : Solana) (rpc_num : ℕ) (broadcast : Bool) where
  open solana use {Account, Transaction, ProgramAccount, SignatureStatus}

  unfoldable pub deal_get_program_accounts :
      List (Turn (List ProgramAccount)) → Option (Panics (ResponseEvent solana))
  deal_get_program_accounts turns =
      deal get_program_accounts get_program_accounts
        (λ from accounts res. HashMap.insert from accounts res) length
        (deal_get_program_accounts_res solana.program_serde) rpc_num broadcast turns []

  unfoldable pub deal_get_signatures_for_address :
      List (Turn (List SignatureStatus)) → Option (Panics (ResponseEvent solana))
  deal_get_signatures_for_address turns =
      deal get_signatures_for_address get_signatures_for_address
        (λ from signatures res. HashMap.insert from signatures res) length
        (deal_get_signatures_for_address_res solana.status_serde) rpc_num broadcast turns []

  unfoldable pub deal_get_account_info :
      List (Turn (Option Account)) → Option (Panics (ResponseEvent solana))
  deal_get_account_info turns =
      deal slot_error get_account_info
        (λ from account res. insert_vote from (solana.account_serde.to_json account) res) length
        (deal_get_account_res solana.account_serde) rpc_num broadcast turns []

  unfoldable pub deal_get_slot : List (Turn ℕ) → Option (Panics (ResponseEvent solana))
  deal_get_slot turns =
      deal get_slot get_slot insert_vote length deal_get_slot_res rpc_num broadcast turns []

  unfoldable pub deal_get_transaction :
      List (Turn Transaction) → Option (Panics (ResponseEvent solana))
  deal_get_transaction turns =
      deal get_transaction get_transaction
        (λ from tx res. insert_vote from (solana.transaction_serde.to_json tx) res) length
        (deal_get_transaction_res solana.transaction_serde) rpc_num broadcast turns []

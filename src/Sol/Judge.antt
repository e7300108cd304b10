-- ===== src/Sol/Judge.antt =====
-- The public calls of src/chains/sol.rs: each asks the judge node, then the others through the
-- dispatcher, and compares the two answers. The judge's answer is `none` where its client returns an
-- error; the task channel takes a task or is closed; the response channel gives an event or is closed.
pub mod Verdicts
pub mod Nodes
use sxn_spv.Common.{
  ℕ, String, Option, none, some, List, [], ◌∷◌, ◌++◌, map, Bool, true, false, leb, if◌then◌else◌,
  ◌⊎◌, inl, inr,
}
use sxn_spv.Common.Outcome.{Outcome, ok, err, panic, ◌>>=◌, ◌>>◌, ok_or, unwrap}
use sxn_spv.Common.Classes.{Eq, bytes_eq}
use sxn_spv.Common.Tally.{tally}
use sxn_spv.Sol.Types.{
  Message, task_channel_closed, rpc_failed, account_differs_from_judge, tx_differs_from_judge,
  slot_behind_judge, no_account, no_signatures, no_slot, no_tx, SolClientError, custom, internal,
  Answer, done, failed, Solana, SignaturesConfig, ResponseEvent,
}
use sxn_spv.Sol.Votes.{texts, counted_as, parse_all}
use sxn_spv.Sol.Worker.{AccountCall, account, account_error}

-- `task_sender.send(..).await.map_err(..)?`
abbrev pub send_task : Bool → Outcome SolClientError (Unit {0})
send_task true = ok tt
send_task false = err (internal task_channel_closed)

abbrev pub answered : {A : Type 0} → Answer A → Outcome SolClientError A
answered (done a) = ok a
answered (failed e) = err e

-- The judge is asked by `get_account` or by `get_account_with_config`.
abbrev pub judge_answer :
    {Account : Type 0} → AccountCall Account ⊎ Option (Option Account) → Option (Option Account)
judge_answer (inl (account a)) = some (some a)
judge_answer (inl (account_error _)) = none
judge_answer (inr res) = res

module _ {solana : Solana} where
  -- The configuration that the other nodes are asked with.
  unfoldable pub config_to_send :
      Option (SignaturesConfig solana) → solana.Signature → SignaturesConfig solana
  config_to_send none before_signature = record {
    before = some before_signature;
    until = none;
    limit = none;
    commitment = none;
  }
  config_to_send (some c) before_signature = record c { before = some before_signature }

module _ {solana : Solana} where
  open solana use {Account, Transaction, ProgramAccount, SignatureStatus}

  -- The answer in an event of the expected kind; `unreachable!()` for every other kind.
  abbrev pub program_accounts_event :
      Option (ResponseEvent solana) → Outcome SolClientError (List ProgramAccount)
  program_accounts_event none = err (custom no_account)
  program_accounts_event (some (ResponseEvent.get_program_accounts res)) = answered res
  program_accounts_event (some _) = panic

  abbrev pub signatures_event :
      Option (ResponseEvent solana) → Outcome SolClientError (List SignatureStatus)
  signatures_event none = err (custom no_signatures)
  signatures_event (some (ResponseEvent.get_signatures_for_address res)) = answered res
  signatures_event (some _) = panic

  abbrev pub account_event : Option (ResponseEvent solana) → Outcome SolClientError (Option Account)
  account_event none = err (custom no_account)
  account_event (some (ResponseEvent.get_account_info res)) = answered res
  account_event (some _) = panic

  abbrev pub slot_event : Option (ResponseEvent solana) → Outcome SolClientError ℕ
  slot_event none = err (custom no_slot)
  slot_event (some (ResponseEvent.get_slot res)) = answered res
  slot_event (some _) = panic

  abbrev pub transaction_event : Option (ResponseEvent solana) → Outcome SolClientError Transaction
  transaction_event none = err (custom no_tx)
  transaction_event (some (ResponseEvent.get_transaction res)) = answered res
  transaction_event (some _) = panic

module _ {solana : Solana} (sent : Bool) where
  open solana use {Account, Transaction, ProgramAccount, SignatureStatus, signature_of}

  -- The items counted twice over both lists.
  unfoldable pub get_program_accounts :
      Option (List ProgramAccount)
      → Option (ResponseEvent solana)
      → Outcome SolClientError (List ProgramAccount)
  get_program_accounts judge extra_res = do
    judge_program_accounts ← ok_or (custom rpc_failed) judge
    send_task sent
    accounts ← program_accounts_event extra_res
    parse_all solana.program_serde (
        counted_as solana.program_serde 2 (
          tally (
            texts solana.program_serde judge_program_accounts
            ++ texts solana.program_serde accounts)))

  -- The judge's first signature is where the other nodes start from, and stays at the front.
  unfoldable pub same_signatures :
      Option (SignaturesConfig solana)
      → SignatureStatus
      → List SignatureStatus
      → (SignaturesConfig solana → Option (ResponseEvent solana))
      → Outcome SolClientError (List SignatureStatus)
  same_signatures config first_member judge_signatures ask = do
    before_signature ← unwrap (signature_of first_member)
    send_task sent
    sigs ← signatures_event (ask (config_to_send config before_signature))
    res ← parse_all solana.status_serde (
        counted_as solana.status_serde 2
          (tally (texts solana.status_serde judge_signatures ++ texts solana.status_serde sigs)))
    ok (first_member ∷ res)

  unfoldable pub get_signatures_for_address :
      Option (SignaturesConfig solana)
      → Option (List SignatureStatus)
      → (SignaturesConfig solana → Option (ResponseEvent solana))
      → Outcome SolClientError (List SignatureStatus)
  unfolding same_signatures
  get_signatures_for_address config none ask = err (custom rpc_failed)
  get_signatures_for_address config (some []) ask = ok []
  get_signatures_for_address config (some (first ∷ others)) ask =
      same_signatures config first others ask

  -- The judge is asked by `get_account` where no configuration is given.
  unfoldable pub get_account_info :
      AccountCall Account ⊎ Option (Option Account)
      → Option (ResponseEvent solana)
      → Outcome SolClientError (Option Account)
  get_account_info judge extra_res = do
    judge_account ← ok_or (custom rpc_failed) (judge_answer judge)
    send_task sent
    same ← account_event extra_res
    if solana.account_eq.beq same judge_account
        then ok same
        else err (custom account_differs_from_judge)

  unfoldable pub get_slot : Option ℕ → Option (ResponseEvent solana) → Outcome SolClientError ℕ
  get_slot judge extra_res = do
    judge_slot ← ok_or (custom rpc_failed) judge
    send_task sent
    slot ← slot_event extra_res
    if leb judge_slot slot then ok judge_slot else err (custom (slot_behind_judge slot judge_slot))

  unfoldable pub get_transaction :
      Option Transaction → Option (ResponseEvent solana) → Outcome SolClientError Transaction
  get_transaction judge extra_res = do
    judge_tx ← ok_or (custom rpc_failed) judge
    send_task sent
    tx ← transaction_event extra_res
    if solana.transaction_eq.beq tx judge_tx then ok tx else err (custom tx_differs_from_judge)

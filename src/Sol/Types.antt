-- ===== src/Sol/Types.antt =====
-- The messages and errors of src/chains/sol.rs, and what is taken from the Solana and serde crates: the
-- types of the chain, the JSON text of a value and its parser. An error text is a constructor with the
-- values in it that tell cases apart; the text of an underlying error is left out.
use sxn_spv.Common.{ℕ, String, ◌≡◌, Option, some, List}
use sxn_spv.Common.Classes.{Eq}

pub data Message : Type 0 where
  unexpected_max_count_elements : ℕ → Message
  no_most_suitable_account no_most_suitable_slot no_most_suitable_tx : Message
  retry_limited : String → Message
  received_error_from : String → Message
  took_more_than_60s : Message
  broadcast_failed task_channel_closed rpc_failed : Message
  account_differs_from_judge tx_differs_from_judge : Message
  slot_behind_judge : ℕ → ℕ → Message
  no_account no_signatures no_slot no_tx : Message

pub data SolClientError : Type 0 where
  custom internal timed_out : Message → SolClientError

-- `Result<A, SolClientError>` as a value that is sent in a message.
pub data Answer (A : Type 0) : Type 0 where
  done : A → Answer A
  failed : SolClientError → Answer A

-- A text in JSON, as bytes.
abbrev pub Json : Type 0
Json = List ℕ

-- `serde_json::to_vec`, `to_string` and their inverses at one type.
pub record Serde (A : Type 0) : Type 0 where
  pub to_json : A → Json
  pub from_json : Json → Option A
  pub round_trip : (a : A) → from_json (to_json a) ≡ some a

-- The types of the Solana crates that the client handles, with what it uses of them. An
-- `Account` has a derived equality, and so has a transaction.
pub record Solana : Type 1 where
  pub Pubkey : Type 0
  pub Signature : Type 0
  pub CommitmentConfig : Type 0
  pub AccountConfig : Type 0
  pub TransactionConfig : Type 0
  pub ProgramConfig : Type 0
  pub Account : Type 0
  pub Transaction : Type 0
  pub ProgramAccount : Type 0
  pub SignatureStatus : Type 0
  pub account_serde : Serde (Option Account)
  pub transaction_serde : Serde Transaction
  pub program_serde : Serde ProgramAccount
  pub status_serde : Serde SignatureStatus
  pub account_eq : Eq (Option Account)
  pub transaction_eq : Eq Transaction
  pub signature_of : SignatureStatus → Option Signature

-- `GetConfirmedSignaturesForAddress2Config`
pub record SignaturesConfig (solana : Solana) : Type 0 where
  pub before : Option solana.Signature
  pub until : Option solana.Signature
  pub limit : Option ℕ
  pub commitment : Option solana.CommitmentConfig

pub data ResponseEvent (solana : Solana) : Type 0 where
  get_transaction : Answer solana.Transaction → ResponseEvent solana
  get_slot : Answer ℕ → ResponseEvent solana
  get_account_info : Answer (Option solana.Account) → ResponseEvent solana
  get_signatures_for_address : Answer (List solana.SignatureStatus) → ResponseEvent solana
  get_program_accounts : Answer (List solana.ProgramAccount) → ResponseEvent solana

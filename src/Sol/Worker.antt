-- ===== src/Sol/Worker.antt =====
-- The workers of src/chains/sol.rs: one for each node, which asks it up to three times and sends one
-- answer to the loop that collects them.
use sxn_spv.Common.{
  ℕ, zero, suc, ◌+◌, ◌≡◌, String, Option, none, some, List, Bool, true, false, arith,
}
use sxn_spv.Sol.Types.{retry_limited, internal, Answer, done, failed, Solana, SignaturesConfig}

-- What `get_account` of a node returns: an account, or an error, with whether it is a transaction error
-- whose text has "AccountNotFound" in it.
pub data AccountCall (Account : Type 0) : Type 0 where
  account : Account → AccountCall Account
  account_error : Bool → AccountCall Account

-- A node behind its RPC client. Each call takes the number of the try first: two tries may differ.
pub record Node (solana : Solana) : Type 0 where
  pub url : String
  pub get_slot : ℕ → Option solana.CommitmentConfig → Option ℕ
  pub get_transaction :
      ℕ → solana.Signature → Option solana.TransactionConfig → Option solana.Transaction
  pub get_account : ℕ → solana.Pubkey → AccountCall solana.Account
  pub get_account_with_config :
      ℕ → solana.Pubkey → solana.AccountConfig → Option (Option solana.Account)
  pub get_program_accounts :
      ℕ → solana.Pubkey → Option solana.ProgramConfig → Option (List solana.ProgramAccount)
  pub get_signatures_for_address :
      ℕ → solana.Pubkey → Option (SignaturesConfig solana) → Option (List solana.SignatureStatus)

module _ {A : Type 0} where
  -- `for _ in 0..3`, with a `break` at the first success.
  unfoldable pub try_times : ℕ → ℕ → (ℕ → Option A) → Option A
  try_times zero i call = none
  try_times (suc n) i call = elim (call i) [ none ↦ try_times n (i + 1) call | some a ↦ some a ]

  abbrev pub answer_of : String → Option A → Answer A × String
  answer_of url none = (failed (internal (retry_limited url)), url)
  answer_of url (some a) = (done a, url)

  unfoldable pub client_worker_do : String → (ℕ → Option A) → Answer A × String
  unfolding try_times
  client_worker_do url call = answer_of url (try_times 3 0 call)

module _ {solana : Solana} (client : Node solana) where
  open solana use {Pubkey, Signature, Account, Transaction, ProgramAccount, SignatureStatus}

  unfoldable pub client_worker_do_get_program_accounts :
      Option solana.ProgramConfig → Pubkey → Answer (List ProgramAccount) × String
  client_worker_do_get_program_accounts config pubkey =
      client_worker_do client.url (λ i. client.get_program_accounts i pubkey config)

  unfoldable pub client_worker_do_get_signatures_for_address :
      Option (SignaturesConfig solana) → Pubkey → Answer (List SignatureStatus) × String
  client_worker_do_get_signatures_for_address config pubkey =
      client_worker_do client.url (λ i. client.get_signatures_for_address i pubkey config)

  abbrev account_call : AccountCall Account → Option (Option Account)
  account_call (account a) = some (some a)
  account_call (account_error true) = some none
  account_call (account_error false) = none

  -- A missing account is an answer where no configuration is given, and an error where one is.
  unfoldable pub get_res : Option solana.AccountConfig → Pubkey → ℕ → Option (Option Account)
  get_res none pubkey i = account_call (client.get_account i pubkey)
  get_res (some config) pubkey i = client.get_account_with_config i pubkey config

  unfoldable pub client_worker_do_get_account :
      Option solana.AccountConfig → Pubkey → Answer (Option Account) × String
  unfolding get_res
  client_worker_do_get_account config pubkey = client_worker_do client.url (get_res config pubkey)

  unfoldable pub client_worker_do_get_slot : Option solana.CommitmentConfig → Answer ℕ × String
  client_worker_do_get_slot config = client_worker_do client.url (λ i. client.get_slot i config)

  unfoldable pub client_worker_do_get_transaction :
      Option solana.TransactionConfig → Signature → Answer Transaction × String
  client_worker_do_get_transaction config signature =
      client_worker_do client.url (λ i. client.get_transaction i signature config)

module _ {A : Type 0} (url : String) (call : ℕ → Option A) where
  -- What the answer is, by the results of the tries.
  abbrev answer_by : Option A → Option A → Option A → Answer A × String
  answer_by (some a) second third = (done a, url)
  answer_by none (some a) third = (done a, url)
  answer_by none none (some a) = (done a, url)
  answer_by none none none = (failed (internal (retry_limited url)), url)

  -- A worker's answer is the first success of three tries, and an internal error under the node's name
  -- where all three fail; a later try is not made.
  pub client_worker_do_lem : client_worker_do url call ≡ answer_by (call 0) (call 1) (call 2)
  unfolding client_worker_do try_times
  client_worker_do_lem = ground arith

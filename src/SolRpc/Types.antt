-- ===== src/SolRpc/Types.antt =====
-- The methods, requests and responses of src/solrpc/mod.rs, what it takes from the Solana and serde
-- crates, and the Solana client as it sees it.
use Prim.Native.String.{◌++◌}
use text.Mathlib.Text.{◌==◌}
use sxn_spv.Common.{ℕ, ◌≡◌, ◌⊎◌, inl, inr, String, Option, none, some, List, length, if◌then◌else◌}
use sxn_spv.Common.Outcome.{Outcome}
use sxn_spv.JsonRpc.{Json}
use sxn_spv.Sol.Types.{Solana, SolClientError, SignaturesConfig}

pub data SolMethod : Type 0 where
  get_transaction get_slot get_account_info get_signatures_for_address : SolMethod
  get_program_accounts : SolMethod

unfoldable pub try_from : String → String ⊎ SolMethod
try_from value =
    if value == "getTransaction"
    then inr SolMethod.get_transaction
    else if value == "getSlot"
    then inr SolMethod.get_slot
    else if value == "getAccountInfo"
    then inr SolMethod.get_account_info
    else if value == "getSignaturesForAddress"
    then inr SolMethod.get_signatures_for_address
    else if value == "getProgramAccounts"
    then inr SolMethod.get_program_accounts
    else inl ("Unsupported method " ++ value)

pub record SolReq (json : Json) : Type 0 where
  pub jsonrpc : String
  pub method : String
  pub params : json.Value
  pub id : json.Value

pub record SolResp (json : Json) : Type 0 where
  pub jsonrpc : String
  pub error : Option String
  pub id : json.Value
  pub result : Option json.Value

-- `RpcSignaturesForAddressConfig`, whose signatures are still texts.
pub record RpcSignaturesConfig (solana : Solana) : Type 0 where
  pub before : Option String
  pub until : Option String
  pub limit : Option ℕ
  pub commitment : Option solana.CommitmentConfig

-- Keys, signatures and configurations as they are read (an error is its text), and values as they are
-- written. A transaction is read back from what was written of it.
pub record SolanaJson (json : Json) (solana : Solana) : Type 0 where
  pub pubkey_from_str : String → String ⊎ solana.Pubkey
  pub signature_from_str : String → String ⊎ solana.Signature
  pub signature_bytes : solana.Signature → List ℕ
  pub signature_bytes_length : (s : solana.Signature) → length (signature_bytes s) ≡ 64
  pub signature_bytes_injective :
      (s t : solana.Signature) → signature_bytes s ≡ signature_bytes t → s ≡ t
  pub transaction_config : json.Value → String ⊎ Option solana.TransactionConfig
  pub commitment_config : json.Value → String ⊎ Option solana.CommitmentConfig
  pub account_config : json.Value → String ⊎ Option solana.AccountConfig
  pub program_config : json.Value → String ⊎ Option solana.ProgramConfig
  pub signatures_config : json.Value → String ⊎ Option (RpcSignaturesConfig solana)
  pub of_transaction : solana.Transaction → json.Value
  pub to_transaction : json.Value → Option solana.Transaction
  pub transaction_read : (tx : solana.Transaction) → to_transaction (of_transaction tx) ≡ some tx
  pub of_slot : ℕ → json.Value
  pub of_account : Option solana.Account → json.Value
  pub of_signatures : List solana.SignatureStatus → json.Value
  pub of_program_accounts : List solana.ProgramAccount → json.Value
  pub error_text : SolClientError → String

-- The calls of `SolClient`.
pub record Client (solana : Solana) : Type 0 where
  pub transaction :
      solana.Signature → Option solana.TransactionConfig → Outcome SolClientError solana.Transaction
  pub slot : Option solana.CommitmentConfig → Outcome SolClientError ℕ
  pub account_info :
      solana.Pubkey → Option solana.AccountConfig → Outcome SolClientError (Option solana.Account)
  pub signatures_for_address :
      solana.Pubkey
      → Option (SignaturesConfig solana)
      → Outcome SolClientError (List solana.SignatureStatus)
  pub program_accounts :
      solana.Pubkey
      → Option solana.ProgramConfig
      → Outcome SolClientError (List solana.ProgramAccount)

module _ {json : Json} where
  open json use {Value}

  abbrev pub create_sol_response : Option String → Value → Option Value → SolResp json
  create_sol_response error i result = record {
    jsonrpc = "2.0";
    error = error;
    id = i;
    result = result;
  }

  abbrev pub refuse : Value → String → SolResp json
  refuse i e = create_sol_response (some e) i none

  abbrev pub answer : Value → Value → SolResp json
  answer i v = create_sol_response none i (some v)

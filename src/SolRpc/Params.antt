-- ===== src/SolRpc/Params.antt =====
-- How the handlers of src/solrpc/mod.rs read their parameters: a key or a signature, then, where there is
-- a second parameter, a configuration.
use Prim.Native.String.{◌++◌}
use sxn_spv.Common.{◌⊎◌, inl, inr, String, Option, none, some, List, [], ◌∷◌, get_elem?}
use sxn_spv.JsonRpc.{Json}
use sxn_spv.Sol.Types.{Solana, SignaturesConfig}
use sxn_spv.SolRpc.Types.{RpcSignaturesConfig, SolanaJson}

-- `format!` around the text of an error.
abbrev pub worded : {A : Type 0} → String → String ⊎ A → String ⊎ A
worded before (inl e) = inl (before ++ e)
worded before (inr a) = inr a

module _ {json : Json} {solana : Solana} (sj : SolanaJson json solana) where
  open json use {Value, as_str}
  open solana use {
    Pubkey, Signature, TransactionConfig, AccountConfig, ProgramConfig, CommitmentConfig,
  }

  abbrev pub text_param : List Value → String ⊎ String
  text_param [] = inl "Invalid numbers of params"
  text_param (v ∷ params) = elim (as_str v) [ some s ↦ inr s | none ↦ inl "Invalid type of params" ]

  abbrev pub pubkey_of : String ⊎ String → String ⊎ Pubkey
  pubkey_of (inl e) = inl e
  pubkey_of (inr pbk_s) = worded "Invalid Pubkey: " (sj.pubkey_from_str pbk_s)

  unfoldable pub pubkey_param : List Value → String ⊎ Pubkey
  pubkey_param params = pubkey_of (text_param params)

  abbrev pub signature_of : String ⊎ String → String ⊎ Signature
  signature_of (inl e) = inl e
  signature_of (inr signature_s) = worded "Invalid signature: " (sj.signature_from_str signature_s)

  unfoldable pub signature_param : List Value → String ⊎ Signature
  signature_param params = signature_of (text_param params)

  abbrev pub config_of :
      {C : Type 0} → String → (Value → String ⊎ Option C) → Option Value → String ⊎ Option C
  config_of before from_value none = inr none
  config_of before from_value (some c) = worded before (from_value c)

  unfoldable pub transaction_config_param : List Value → String ⊎ Option TransactionConfig
  transaction_config_param params =
      config_of "Invalid RpcTransactionConfig: " sj.transaction_config (get_elem? params 1)

  unfoldable pub account_config_param : List Value → String ⊎ Option AccountConfig
  account_config_param params =
      config_of "Invalid RpcAccountInfoConfig: " sj.account_config (get_elem? params 1)

  -- The text is that of the other configuration.
  unfoldable pub program_config_param : List Value → String ⊎ Option ProgramConfig
  program_config_param params =
      config_of "Invalid RpcAccountInfoConfig: " sj.program_config (get_elem? params 1)

  unfoldable pub commitment_param : List Value → String ⊎ Option CommitmentConfig
  commitment_param params =
      config_of "Invalid CommitmentConfig: " sj.commitment_config (get_elem? params 0)

  abbrev pub some_signature : String ⊎ Signature → String ⊎ Option Signature
  some_signature (inl e) = inl ("Invalid RpcSignaturesForAddressConfig: " ++ e)
  some_signature (inr s) = inr (some s)

  abbrev pub bound_of : Option String → String ⊎ Option Signature
  bound_of none = inr none
  bound_of (some b) = some_signature (sj.signature_from_str b)

  abbrev pub bounded :
      RpcSignaturesConfig solana
      → String ⊎ Option Signature
      → String ⊎ Option Signature
      → String ⊎ Option (SignaturesConfig solana)
  bounded config (inl e) until = inl e
  bounded config (inr before) (inl e) = inl e
  bounded config (inr before) (inr until) = inr (
      some (record {
        before = before;
        until = until;
        limit = config.limit;
        commitment = config.commitment;
      }))

  abbrev pub with_bounds :
      String ⊎ Option (RpcSignaturesConfig solana) → String ⊎ Option (SignaturesConfig solana)
  with_bounds (inl e) = inl e
  with_bounds (inr none) = inr none
  with_bounds (inr (some config)) = bounded config (bound_of config.before) (bound_of config.until)

  unfoldable pub signatures_config_param : List Value → String ⊎ Option (SignaturesConfig solana)
  signatures_config_param params = with_bounds (
      config_of "Invalid RpcSignaturesForAddressConfig: " sj.signatures_config (get_elem? params 1))

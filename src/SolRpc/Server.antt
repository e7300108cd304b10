-- ===== src/SolRpc/Server.antt =====
-- The entry point `sol` of src/solrpc/mod.rs: one signed response.
use sxn_spv.Common.{String, Option, none, some, List, [], ◌∷◌}
use sxn_spv.Common.Outcome.{Panics, ok, ◌>>=◌, unwrap}
use sxn_spv.Daemon.Reply.{ℤ, negsuc}
use sxn_spv.JsonRpc.{Json, ResponseCache}
use sxn_spv.EthRpc.Server.{first_of}
use sxn_spv.Sol.Types.{Solana}
use sxn_spv.SolRpc.Types.{SolReq, SolResp, SolanaJson, Client}
use sxn_spv.SolRpc.Handlers.{handle_request}

module _ (json : Json) where
  open json use {Value}

  pub record JsonRpcError : Type 0 where
    pub code : ℤ
    pub message : String
    pub error_data : Option Value

  pub record SolRespOk : Type 0 where
    pub jsonrpc : String
    pub id : Value
    pub result : Option Value

  pub record SolRespErr : Type 0 where
    pub jsonrpc : String
    pub error : JsonRpcError
    pub id : Value

  -- `serde_json::to_string`
  pub record Serde : Type 0 where
    pub of_ok : SolRespOk → String
    pub of_err : SolRespErr → String

module _ {json : Json} (serde : Serde json) where
  abbrev pub convert_one : SolResp json → String
  convert_one input = elim input.error [
    | none ↦ serde.of_ok (record { jsonrpc = input.jsonrpc; id = input.id; result = input.result })
    | some message ↦ serde.of_err (record {
      jsonrpc = input.jsonrpc;
      error = record { code = negsuc 998; message = message; error_data = none };
      id = input.id;
    })
  ]

  abbrev pub convert : List (SolResp json) → List String
  convert [] = []
  convert (input ∷ inputs) = convert_one input ∷ convert inputs

  module _ {solana : Solana} (sj : SolanaJson json solana)
      (create_sgx_response : String → String) where
    unfoldable pub sol :
        Option (Client solana)
        → SolReq json
        → ResponseCache json
        → Panics (String × ResponseCache json)
    sol client payload cache = do
      sol_client ← unwrap client
      (resp, cache') ← handle_request sj sol_client payload cache
      text ← first_of (convert (resp ∷ []))
      ok (create_sgx_response text, cache')

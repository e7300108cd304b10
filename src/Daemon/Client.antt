-- ===== src/Daemon/Client.antt =====
-- The calls of `Daemon` in src/daemon.rs, over `request` and `requests`. Each takes the counter of the
-- messages and returns it beside its result.
pub mod Answers
mod Tests
use sxn_spv.Common.{ℕ, ◌⊎◌, String, Bool, true, false, Option, none, some, List, [], ◌∷◌, map}
use sxn_spv.Common.Outcome.{Outcome, ok, err, panic, ◌>>=◌, map_err, unwrap}
use sxn_spv.Server.Network.{Network}
use sxn_spv.BtcRpc.ChainState.{MerkleProofParamChain}
use sxn_spv.Daemon.Reply.{Rpc}
use sxn_spv.Daemon.Batch.{BatchError, request, requests}
use sxn_spv.Daemon.Decode.{
  Encodings, DecodeError, MerkleBlock, header_of_network, merkleblock_of_chain,
}

-- A node behind its address, and how a hash is written and read. `to_string` of the parameters of a proof is
-- a JSON value.
pub record Node : Type 1 where
  pub rpc : Rpc
  pub send_req : List rpc.Value → String ⊎ rpc.Value
  pub encodings : Encodings rpc.Value
  pub hash_text : ℕ → String
  pub parse_text : String → Option ℕ
  pub network : Network

module _ (node : Node) where
  open node use {rpc, send_req, encodings, hash_text, parse_text, network}

  -- `rpc.Value` and the headers of the encodings.
  abbrev pub Value : Type 0
  Value = rpc.Value

  abbrev pub Header : Type 0
  Header = encodings.Header

  pub data ClientError : Type 0 where
    batch_failed : BatchError rpc send_req → ClientError
    decode_failed : DecodeError encodings → ClientError
    non_string_value non_hex_value : Value → ClientError

  abbrev pub Call : Type 0 → Type 0
  Call A = Outcome ClientError A × ℕ

  -- A value that was read from the result of one request.
  abbrev pub read_by :
      {A : Type 0}
      → (Value → Outcome ClientError A)
      → Outcome (BatchError rpc send_req) Value × ℕ
      → Call A
  read_by read (value, id) = (map_err batch_failed value >>= read, id)

  abbrev pub hash_of_text : Value → Option ℕ → Outcome ClientError ℕ
  hash_of_text value none = err (non_hex_value value)
  hash_of_text value (some h) = ok h

  abbrev pub hash_of_str : Value → Option String → Outcome ClientError ℕ
  hash_of_str value none = err (non_string_value value)
  hash_of_str value (some text) = hash_of_text value (parse_text text)

  unfoldable pub parse_hash : Value → Outcome ClientError ℕ
  parse_hash value = hash_of_str value (rpc.as_str value)

  unfoldable pub getbestblockhash : ℕ → Call ℕ
  getbestblockhash message_id =
      read_by parse_hash (request rpc send_req message_id "getbestblockhash" (rpc.of_array []))

  abbrev pub header_of : Value → Outcome ClientError Header
  header_of value = map_err decode_failed (header_of_network encodings network value)

  -- The parameters of `getblockheader`: not verbose.
  abbrev pub header_params : Value → Value
  header_params hash = rpc.of_array (hash ∷ rpc.of_bool false ∷ [])

  unfoldable pub getblockheader : ℕ → ℕ → Call Header
  getblockheader message_id blockhash = read_by header_of (
      request rpc send_req message_id "getblockheader"
        (header_params (rpc.of_string (hash_text blockhash))))

  -- The values are read in order; the first that cannot be read is the error.
  abbrev pub read_all :
      {A : Type 0} → (Value → Outcome ClientError A) → List Value → Outcome ClientError (List A)
  read_all read [] = ok []
  read_all read (v ∷ vs) = read v >>= λ a. read_all read vs >>= λ more. ok (a ∷ more)

  abbrev pub read_all_by :
      {A : Type 0}
      → (Value → Outcome ClientError A)
      → Outcome (BatchError rpc send_req) (List Value) × ℕ
      → Call (List A)
  read_all_by read (values, id) = (map_err batch_failed values >>= read_all read, id)

  -- The second batch, of the headers of the hashes.
  abbrev pub headers_by : Outcome (BatchError rpc send_req) (List Value) × ℕ → Call (List Header)
  headers_by (ok hashes, id) =
      read_all_by header_of (requests rpc send_req id "getblockheader" (map header_params hashes))
  headers_by (err e, id) = (err (batch_failed e), id)
  headers_by (panic, id) = (panic, id)

  unfoldable pub getblockheaders : ℕ → List ℕ → Call (List Header)
  getblockheaders message_id heights = headers_by (
      requests rpc send_req message_id "getblockhash"
        (map (λ height. rpc.of_array (rpc.of_number height ∷ [])) heights))

  abbrev pub block_of : MerkleProofParamChain → Value → Outcome ClientError (MerkleBlock encodings)
  block_of chain value = map_err decode_failed (merkleblock_of_chain encodings chain value)

  unfoldable pub gettxoutproof : ℕ → MerkleProofParamChain × Value → Call (MerkleBlock encodings)
  gettxoutproof message_id (chain, param) =
      read_by (block_of chain) (request rpc send_req message_id "gettxoutproof" param)

  abbrev pub param_values : List (MerkleProofParamChain × Value) → List Value
  param_values = map (λ param. param.1)

  -- The chain is that of the first parameter, `param[0]`.
  unfoldable pub gettxoutproofs :
      ℕ → List (MerkleProofParamChain × Value) → Call (List (MerkleBlock encodings))
  gettxoutproofs message_id [] = (panic, message_id)
  gettxoutproofs message_id ((chain, param) ∷ params) =
      read_all_by (block_of chain)
        (requests rpc send_req message_id "gettxoutproof" (param_values ((chain, param) ∷ params)))

  -- `unwrap` of a `Result`
  abbrev pub expect_ok : {A : Type 0} → Outcome ClientError A → Outcome ClientError A
  expect_ok (ok a) = ok a
  expect_ok (err e) = panic
  expect_ok panic = panic

  abbrev pub tip_asked : Call ℕ → Outcome ClientError (Unit {0}) × ℕ
  tip_asked (ok tip, id) =
      let (header, id') = getblockheader id tip in (expect_ok header >>= λ _. ok tt, id')
  tip_asked (err e, id) = (panic, id)
  tip_asked (panic, id) = (panic, id)

  -- `Daemon::new` asks for the tip and its header, and panics if either fails, unless for electrs only.
  unfoldable pub new : Bool → Outcome ClientError (Unit {0}) × ℕ
  new true = (ok tt, 0)
  new false = tip_asked (getbestblockhash 0)

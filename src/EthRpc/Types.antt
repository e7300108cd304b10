-- ===== src/EthRpc/Types.antt =====
-- What src/ethrpc/mod.rs takes from libraries (alloy and helios), the requests and the responses, and
-- the numbers that it parses.
use Prim.Native.Char.{code}
use sxn_spv.Common.{
  ℕ, ◌+◌, ◌-◌, ◌*◌, ◌^◌, ◌≡◌, ◌⊎◌, inl, inr, String, ◌&&◌, Option, List, leb, ltb, ◌==◌,
  if◌then◌else◌,
}
use sxn_spv.JsonRpc.{Json}

-- Filters of logs and hashes of transactions, as they are read from a request.
pub record Alloy (json : Json) : Type 1 where
  pub Filter : Type 0
  pub B256 : Type 0
  pub deserialize : json.Value → String ⊎ Filter
  pub from_hex : String → String ⊎ B256
  pub to_vec : B256 → List ℕ
  pub to_vec_injective : (g h : B256) → to_vec g ≡ to_vec h → g ≡ h

-- A light client: each call returns an error, as its text, or a value that is written as JSON.
pub record Client {json : Json} (alloy : Alloy json) : Type 1 where
  pub Logs : Type 0
  pub Block : Type 0
  pub Receipt : Type 0
  pub get_logs : alloy.Filter → String ⊎ Logs
  pub get_block_by_number : ℕ → String ⊎ Option Block
  pub get_transaction_receipt : alloy.B256 → String ⊎ Option Receipt
  pub of_logs : Logs → json.Value
  pub of_block : Block → json.Value
  pub of_receipt : Receipt → json.Value

pub record EthReq (json : Json) : Type 0 where
  pub jsonrpc : String
  pub method : String
  pub params : json.Value
  pub id : json.Value

pub record EthResp (json : Json) : Type 0 where
  pub jsonrpc : String
  pub error : Option String
  pub id : json.Value
  pub result : Option json.Value

abbrev pub create_eth_response :
    {json : Json} → Option String → json.Value → Option json.Value → EthResp json
create_eth_response error i result = record {
  jsonrpc = "2.0";
  error = error;
  id = i;
  result = result;
}

abbrev pub get_logs_method : String
get_logs_method = "eth_getLogs"

abbrev pub get_block_by_number_method : String
get_block_by_number_method = "eth_getBlockByNumber"

abbrev pub get_transaction_receipt_method : String
get_transaction_receipt_method = "eth_getTransactionReceipt"

-- `ParseIntError`
pub data IntErrorKind : Type 0 where
  empty invalid_digit pos_overflow : IntErrorKind

abbrev pub int_error_text : IntErrorKind → String
int_error_text empty = "cannot parse integer from empty string"
int_error_text invalid_digit = "invalid digit found in string"
int_error_text pos_overflow = "number too large to fit in target type"

abbrev pub parse_digits : ℕ → String → IntErrorKind ⊎ ℕ
parse_digits n String.[] = inr n
parse_digits n (String.◌∷◌ ch rest) =
    let c = code ch in
    let n' = n * 10 + (c - 48) in
    let more = parse_digits n' rest in
    if leb 48 c && leb c 57
    then if ltb n' (2 ^ 64) then more else inl pos_overflow
    else inl invalid_digit

-- `str::parse::<u64>`: a `+` before the digits is passed over.
abbrev pub parse_u64 : String → IntErrorKind ⊎ ℕ
parse_u64 String.[] = inl empty
parse_u64 (String.◌∷◌ ch String.[]) = parse_digits 0 (String.◌∷◌ ch String.[])
parse_u64 (String.◌∷◌ ch (String.◌∷◌ d rest)) =
    let digits = parse_digits 0 (String.◌∷◌ d rest) in
    let all = parse_digits 0 (String.◌∷◌ ch (String.◌∷◌ d rest)) in
    if code ch == 43 then digits else all

-- ===== src/EthRpc/Tests.antt =====
-- Clients that know one transaction each.
use sxn_spv.Common.{
  ℕ, ◌≡◌, refl, inl, inr, String, Option, none, some, List, [], ◌∷◌, map, ◌==◌, if◌then◌else◌,
  arith,
}
use sxn_spv.Common.Classes.{string_eq}
use sxn_spv.Common.Order.{bytes_ord}
use sxn_spv.Common.Outcome.{ok}
use sxn_spv.Common.BTreeMap
use sxn_spv.Cache
use sxn_spv.Cache.{SimpleCache}
use sxn_spv.Cache.Laws.{IsValid}
use sxn_spv.JsonRpc.{Json, ResponseCache, IsBacked}
use sxn_spv.EthRpc.Types.{
  Alloy, Client, EthReq, get_transaction_receipt_method, get_block_by_number_method, parse_u64,
  invalid_digit, pos_overflow, empty,
}
use sxn_spv.EthRpc.Handlers.{answer, handle_requests}
use sxn_spv.EthRpc.Uncached.{uncached}
use sxn_spv.EthRpc.Cached.{Receipts}
use sxn_spv.EthRpc.Server.{
  Serde, AppState, convert_one, convert, batch_text, eth, eth2, optimism, eth-uncached, AsksReceipt,
  optimism-eth2,
}

data TestValue : Type 0 where
  text : String → TestValue
  texts : List String → TestValue
  number : ℕ → TestValue

abbrev as_text : TestValue → Option String
as_text (text s) = some s
as_text _ = none

abbrev as_texts : TestValue → Option (List TestValue)
as_texts (texts ss) = some (map text ss)
as_texts _ = none

abbrev test_json : Json
test_json = record { Value = TestValue; as_array = as_texts; as_str = as_text }

-- A number, alone.
abbrev alone : ℕ → List ℕ
alone h = h ∷ []

alone_injective : (g h : ℕ) → alone g ≡ alone h → g ≡ h
alone_injective g h eq = cc

abbrev test_alloy : Alloy test_json
test_alloy = record {
  Filter = ℕ;
  B256 = ℕ;
  deserialize = λ v. inr 0;
  from_hex = λ s. if string_eq.beq s "0x01" then inr 1 else inl "not a hash";
  to_vec = alone;
  to_vec_injective = alone_injective;
}

-- It has a receipt for the transaction 1, and a block at every height.
abbrev test_client : ℕ → Client test_alloy
test_client receipt = record {
  Logs = ℕ;
  Block = ℕ;
  Receipt = ℕ;
  get_logs = λ f. inr f;
  get_block_by_number = λ n. inr (some n);
  get_transaction_receipt = λ h. inr (if h == 1 then some receipt else none);
  of_logs = number;
  of_block = number;
  of_receipt = number;
}

abbrev test_state : AppState test_alloy
test_state = record {
  helios_client = some (test_client 7);
  helios_op_client = some (test_client 8);
  create_sgx_response = λ s. s;
}

abbrev test_serde : Serde test_json
test_serde = record { of_ok = λ r. "ok"; of_err = λ r. r.error.message; of_texts = λ s. "array" }

abbrev test_req : String → String → EthReq test_json
test_req method param = record {
  jsonrpc = "2.0";
  method = method;
  params = texts (param ∷ []);
  id = number 5;
}

abbrev receipt_req : EthReq test_json
receipt_req = test_req get_transaction_receipt_method "0x01"

abbrev no_entries : ResponseCache test_json
no_entries = Cache.new 2

no_entries-IsValid : IsValid no_entries
no_entries-IsValid = record { sorted = tt; bounded = omega arith }

no_entries-IsBacked : IsBacked test_json (Receipts test_alloy (test_client 7)) no_entries
unfolding Cache.get BTreeMap.get
no_entries-IsBacked = record {
  valid = no_entries-IsValid;
  backed = λ k v at. absurd (ground arith);
}

receipt_req_asks : AsksReceipt test_serde test_alloy test_state receipt_req 1
receipt_req_asks = record {
  method_is = refl;
  param = text "0x01";
  params_are = refl;
  text = "0x01";
  text_is = refl;
  hash_is = refl;
}

heights :
    (parse_u64 "20" ≡ inr 20)
    × (parse_u64 "+20" ≡ inr 20)
    × (parse_u64 "0x14" ≡ inl invalid_digit)
    × (parse_u64 "-1" ≡ inl invalid_digit)
    × (parse_u64 "18446744073709551615" ≡ inr 18446744073709551615)
    × (parse_u64 "18446744073709551616" ≡ inl pos_overflow)
    × (parse_u64 "" ≡ inl empty)
heights = (refl, refl, refl, refl, refl, refl, refl)

-- A height in hex is refused.
hex_height :
    eth test_serde test_alloy test_state
      (test_req get_block_by_number_method "0x14" ∷ [])
      no_entries
    ≡ ok ("error number invalid digit found in string", no_entries)
unfolding eth handle_requests
hex_height = refl

eth-uncached_example :
    (cache' : ResponseCache test_json) × (eth test_serde test_alloy test_state
        (receipt_req ∷ test_req get_block_by_number_method "20" ∷ receipt_req ∷ [])
        no_entries
      ≡ ok (
        batch_text test_serde (
            convert test_serde (
              map
                (uncached test_alloy (test_client 7))
                (receipt_req ∷ test_req get_block_by_number_method "20" ∷ receipt_req ∷ []))),
        cache',
      ))
    × IsBacked test_json (Receipts test_alloy (test_client 7)) cache'
eth-uncached_example =
    eth-uncached test_serde test_alloy test_state (test_client 7)
      (receipt_req ∷ test_req get_block_by_number_method "20" ∷ receipt_req ∷ []) no_entries refl
      no_entries-IsBacked

optimism-eth2_example :
    (cache' : ResponseCache test_json) × (optimism test_serde test_alloy test_state receipt_req
        no_entries
      ≡ ok (convert_one test_serde (answer (number 5) (number 8)), cache'))
    × (eth2 test_serde test_alloy test_state receipt_req cache'
        ≡ ok (convert_one test_serde (answer (number 5) (number 8)), cache'))
unfolding Cache.get BTreeMap.get
optimism-eth2_example =
    optimism-eth2 test_serde test_alloy test_state (test_client 7) (test_client 8) receipt_req
      receipt_req 1 8 no_entries refl refl receipt_req_asks receipt_req_asks no_entries-IsValid refl
      refl

-- ===== src/Daemon/Client/Tests.antt =====
-- A node that answers every call with a text, whose replies name the number of the call.
use sxn_spv.Common.{
  ℕ, zero, suc, ◌≤◌, ◌≡◌, ◌↔◌, ◌⊎◌, inl, inr, refl, String, Bool, true, false, Option, none, some,
  List, [], ◌∷◌, ◌++◌, map, drop, All, ◌||◌, ◌==◌, ==-self, if◌then◌else◌,
}
use sxn_spv.Common.Outcome.{ok}
use sxn_spv.Common.Classes.{string_eq}
use sxn_spv.Server.Network.{fractal, testnet}
use sxn_spv.Daemon.{chunks}
use sxn_spv.Daemon.Reply.{
  Rpc, ℤ, negsuc, parse_jsonrpc_reply, parse_error_code, IsUncoded, parse_jsonrpc_reply_iff,
}
use sxn_spv.Daemon.Batch.{take_replies, send_chunks, handle_request_batch, requests, pieces_of}
use sxn_spv.Daemon.Batch.Strict.{parse_all, fetch_all, requests-fetch_all}
use sxn_spv.Daemon.Batch.Threshold.{replies_of, results_of, failures, handle_request_batch_bound}
use sxn_spv.Daemon.Decode.{
  Bytes, Encodings, header_from_value, header_of_network, doge_merkleblock_from_value,
}
use sxn_spv.Daemon.Decode.RoundTrip.{
  Encoders, AuxPow, doge_merkleblock_from_value_roundtrip, header_of_network_roundtrip,
}
use sxn_spv.Daemon.Client.{Node, header_of, getblockheaders}
use sxn_spv.Daemon.Client.Answers.{Answering, getblockheaders_answered}

-- JSON values as far as the tests need them: a reply has an id and a result, or an id and an error with a code.
data Json : Type 0 where
  null nil : Json
  number : ℕ → Json
  text : String → Json
  cons : Json → Json → Json
  reply : ℕ → Json → Json
  failed : ℕ → Json
  code : Json
  call : String → Json → ℕ → Json

abbrev is_object : Json → Bool
is_object (reply id result) = true
is_object (failed id) = true
is_object code = true
is_object _ = false

abbrev field : Json → String → Option Json
field (reply id result) name =
    if string_eq.beq name "id"
    then some (number id)
    else if string_eq.beq name "result"
    then some result
    else none
field (failed id) name =
    if string_eq.beq name "id"
    then some (number id)
    else if string_eq.beq name "error"
    then some code
    else none
field code name = if string_eq.beq name "code" then some code else none
field _ name = none

abbrev as_i64 : Json → Option ℤ
as_i64 code = some (negsuc 4)
as_i64 _ = none

abbrev is_number : ℕ → Json → Bool
is_number n (number m) = m == n
is_number n _ = false

abbrev as_str : Json → Option String
as_str (text s) = some s
as_str _ = none

abbrev prepend : Json → Option (List Json) → Option (List Json)
prepend v none = none
prepend v (some vs) = some (v ∷ vs)

abbrev as_array : Json → Option (List Json)
as_array nil = some []
as_array (cons v vs) = prepend v (as_array vs)
as_array _ = none

abbrev of_array : List Json → Json
of_array [] = nil
of_array (v ∷ vs) = cons v (of_array vs)

abbrev test_rpc : Rpc
test_rpc = record {
  Value = Json;
  is_object = is_object;
  field = field;
  is_null = λ v. false;
  is_number = is_number;
  as_i64 = as_i64;
  as_u64 = λ v. none;
  as_str = as_str;
  as_array = as_array;
  of_string = text;
  of_number = number;
  of_bool = λ b. null;
  of_array = of_array;
  request = call;
}

-- A reply to a call: the text for a header or a hash, and an error for anything else.
abbrev reply_to : Json → Json
reply_to (call method params id) =
    if string_eq.beq method "stop" then failed id else reply id (text "header")
reply_to _ = null

abbrev send_req : List Json → String ⊎ Json
send_req reqs = inr (of_array (map reply_to reqs))

parse_jsonrpc_reply_iff_example :
    (parse_jsonrpc_reply test_rpc (reply 3 null) "getblockhash" 3 ≡ ok null) ↔ (
      (is_object (reply 3 null) ≡ true)
      × IsUncoded test_rpc (field (reply 3 null) "error")
      × ((id : Json) × (field (reply 3 null) "id" ≡ some id) × (is_number 3 id ≡ true))
      × (field (reply 3 null) "result" ≡ some null))
parse_jsonrpc_reply_iff_example =
    parse_jsonrpc_reply_iff test_rpc (reply 3 null) "getblockhash" 3 null

abbrev two_params : List Json
two_params = number 1 ∷ number 2 ∷ []

requests-fetch_all_example : requests test_rpc send_req 6 "getblockhash" two_params ≡ (
  fetch_all test_rpc send_req "getblockhash" 7
      (pieces_of test_rpc send_req "getblockhash" 7 two_params),
  7,
)
requests-fetch_all_example = requests-fetch_all test_rpc send_req 6 "getblockhash" two_params

program : Unit {0}
unfolding take_replies send_chunks handle_request_batch chunks parse_jsonrpc_reply parse_error_code
program = tt

all_failed : handle_request_batch test_rpc send_req 6 "stop" two_params (λ n. n) ≡ (ok [], 7)
unfolding program
all_failed = refl

handle_request_batch_bound_example :
    (replies : List Json) × (replies_of test_rpc send_req
        (pieces_of test_rpc send_req "stop" 7 two_params)
      ≡ ok replies)
    × ([] ≡ results_of test_rpc send_req "stop" 7 replies)
    × (failures test_rpc send_req "stop" 7 replies ≤ 2)
handle_request_batch_bound_example =
    handle_request_batch_bound test_rpc send_req 6 "stop" two_params [] (λ n. n) 7 all_failed

abbrev zeros : ℕ → Bytes
zeros zero = []
zeros (suc n) = 0 ∷ zeros n

abbrev decode_byte : Bytes → String ⊎ (ℕ × Bytes)
decode_byte [] = inl "end"
decode_byte (b ∷ rest) = inr (b, rest)

-- A header is its version, in 80 bytes.
abbrev decode_header : Bytes → String ⊎ (ℕ × Bytes)
decode_header [] = inl "end"
decode_header (b ∷ rest) = inr (b, drop 79 rest)

abbrev first_byte : Bytes → Option ℕ
first_byte [] = none
first_byte (b ∷ rest) = some b

abbrev encode_header : ℕ → Bytes
encode_header h = h ∷ zeros 79

abbrev encode_byte : ℕ → Bytes
encode_byte b = b ∷ []

-- A version with the ninth bit set, a proof of work with two hashes and none in its branches, and a tree.
abbrev block_bytes : Bytes
block_bytes = encode_header 256 ++ ((1 ∷ 2 ∷ 2 ∷ 3 ∷ 4 ∷ 5 ∷ 0 ∷ 6 ∷ encode_header 7) ++ 9 ∷ [])

abbrev test_encodings : Encodings Json
test_encodings = record {
  Header = ℕ;
  Tree = ℕ;
  Transaction = ℕ;
  as_str = as_str;
  hex_decode = λ s. some (if string_eq.beq s "block" then block_bytes else encode_header 8);
  deserialize_header = first_byte;
  deserialize_block = λ b. none;
  version = λ h. h;
  decode_header = decode_header;
  decode_transaction = decode_byte;
  decode_hash = decode_byte;
  decode_varint = decode_byte;
  decode_i32 = decode_byte;
  decode_tree = decode_byte;
}

abbrev test_encoders : Encoders test_encodings
test_encoders = record {
  header = record { encode = encode_header; read = λ h rest. refl };
  transaction = record { encode = encode_byte; read = λ b rest. refl };
  hash = record { encode = encode_byte; read = λ b rest. refl };
  varint = record { encode = encode_byte; read = λ b rest. refl };
  i32 = record { encode = encode_byte; read = λ b rest. refl };
  tree = record { encode = encode_byte; read = λ b rest. refl };
  header_length = λ h. refl;
  header_deserialized = λ h. refl;
}

abbrev auxpow : AuxPow test_encodings
auxpow = record {
  coinbase_tx = 1;
  parent_blockhash = 2;
  coinbase_branch = record { hashes = 3 ∷ 4 ∷ []; mask = 5 };
  blockchain_branch = record { hashes = []; mask = 6 };
  parent_block_header = 7;
}

doge_merkleblock_from_value_roundtrip_example :
    doge_merkleblock_from_value test_encodings (text "block") ≡ ok (256, 9)
doge_merkleblock_from_value_roundtrip_example =
    doge_merkleblock_from_value_roundtrip test_encodings test_encoders (text "block") "block" 256
      auxpow 9 [] refl refl

header_of_network_roundtrip_example :
    header_of_network test_encodings fractal (text "block") ≡ ok 256
header_of_network_roundtrip_example =
    header_of_network_roundtrip test_encodings test_encoders fractal (text "block") "block" 256
      ((1 ∷ 2 ∷ 2 ∷ 3 ∷ 4 ∷ 5 ∷ 0 ∷ 6 ∷ encode_header 7) ++ 9 ∷ []) refl refl

-- The node has the headers at the heights up to 2: other heights, other hashes and other methods are errors.
abbrev hash_at : ℕ → Option Json
hash_at height =
    if height == 0
    then some (text "a")
    else if height == 1
    then some (text "b")
    else if height == 2
    then some (text "c")
    else none

abbrev hash_for : Json → Option Json
hash_for (cons (number height) nil) = hash_at height
hash_for _ = none

abbrev header_for : Json → Option Json
header_for (cons (text hash) rest) =
    if string_eq.beq hash "a" || string_eq.beq hash "b" || string_eq.beq hash "c"
    then some (text "header")
    else none
header_for _ = none

abbrev node_result : String → Json → Option Json
node_result method params =
    if string_eq.beq method "getblockhash"
    then hash_for params
    else if string_eq.beq method "getblockheader"
    then header_for params
    else none

abbrev reply_with : ℕ → Option Json → Json
reply_with id none = failed id
reply_with id (some result) = reply id result

abbrev answer_to : Json → Json
answer_to (call method params id) = reply_with id (node_result method params)
answer_to _ = null

-- An empty batch is an error.
abbrev send_all : List Json → String ⊎ Json
send_all [] = inr (failed 0)
send_all (req ∷ reqs) = inr (of_array (map answer_to (req ∷ reqs)))

abbrev test_node : Node
test_node = record {
  rpc = test_rpc;
  send_req = send_all;
  encodings = test_encodings;
  hash_text = λ h. "hash";
  parse_text = λ s. some 0;
  network = testnet;
}

abbrev or_null : Option Json → Json
or_null none = null
or_null (some v) = v

abbrev answer : String → Json → Json
answer method params = or_null (node_result method params)

abbrev Accepts : String → ℕ → Json → Type 0
Accepts method id params = node_result method params ≡ some (answer method params)

read_back : (vs : List Json) → as_array (of_array vs) ≡ some vs
read_back [] = refl
read_back (v ∷ vs) = rw (read_back vs) refl

abbrev replies_to : String → ℕ → List Json → List Json
replies_to method id params_list = map answer_to (map (λ p. call method p id) params_list)

parse_all-replies :
    (method : String) (id : ℕ) (ps : List Json)
    → All (Accepts method id) ps
    → parse_all test_rpc send_all method id (replies_to method id ps) ≡ ok (map (answer method) ps)
unfolding parse_jsonrpc_reply
parse_all-replies method id [] accepted = refl
parse_all-replies method id (p ∷ ps) (one, accepted) =
    rw (one, ==-self id, parse_all-replies method id ps accepted) refl

abbrev test_answering : Answering test_node Accepts answer
test_answering = record {
  replies = replies_to;
  sent = λ method id p ps accepted. rw (read_back (replies_to method id (p ∷ ps))) refl;
  in_order = λ method id p ps accepted. parse_all-replies method id (p ∷ ps) accepted;
}

header_read : header_of test_node (text "header") ≡ ok 8
unfolding header_of_network header_from_value
header_read = refl

getblockheaders_answered_example :
    getblockheaders test_node 4 (0 ∷ 2 ∷ 1 ∷ []) ≡ (ok (8 ∷ 8 ∷ 8 ∷ []), 6)
getblockheaders_answered_example =
    getblockheaders_answered test_node Accepts answer test_answering 4 (0 ∷ 2 ∷ 1 ∷ [])
      (λ height. 8) (refl, (refl, (refl, tt))) (refl, (refl, (refl, tt)))
      (header_read, (header_read, (header_read, tt)))

-- ===== src/BtcRpc/Tests.antt =====
-- The handlers on a client with one block.
use sxn_spv.Common.{
  map, ap, ℕ, ◌≡◌, refl, ◌⊎◌, inr, Bool, true, false, String, Option, none, some, List, [], ◌∷◌,
  if◌then◌else◌, ==_iff, arith,
}
use mathlib.Core.Path.{subst}
use sxn_spv.Common.Outcome.{ok, err}
use sxn_spv.Common.Order.{bytes_ord}
use sxn_spv.Common.BTreeMap
use sxn_spv.Bitcoin.{BlockHash}
use sxn_spv.Cache
use sxn_spv.Cache.{SimpleCache}
use sxn_spv.Cache.Laws.{IsValid}
use sxn_spv.Common.Classes.{string_eq}
use sxn_spv.BtcRpc.Sample.{
  Block, TestValue, test_json, hash_bytes, test_hashes, test_handle, test_merkle, test_state,
  nothing_cached, number, text, header_object, pair,
}
use sxn_spv.BtcRpc.Entry.{Members, parse_request}
use sxn_spv.BtcRpc.Ids.{handle_fetch_header-ids}
use sxn_spv.BtcRpc.Types.{BtcResp, ResponseCache, to_be_bytes, be_bytes}
use sxn_spv.BtcRpc.Handlers.{answer, getblockhash_of, getblockheader_of}
use sxn_spv.BtcRpc.Requests.{BtcReq, handle_fetch_header}
use sxn_spv.BtcRpc.ChainState.{
  bit_coin, doge_coin, MerkleProofParam, header_unreadable, header_p2p, verify_txid,
}
use sxn_spv.BtcRpc.Faithful.{IsFaithful, Serves, handle_fetch_header-IsFaithful}
use sxn_spv.BtcRpc.Soundness.{AllServe, Checked, verify_txid_sound}
use sxn_spv.BtcRpc.Confusion.{getblockhash_twice, getblockheader_hex, verify_txid_any}

program : Unit {0}
unfolding Cache.get Cache.insert BTreeMap.get BTreeMap.insert verify_txid header_p2p getblockhash_of
    getblockheader_of be_bytes
program = tt

-- What the client has.
abbrev Known : BlockHash → Block → Type 0
Known h x = (h ≡ 7) × (x ≡ (7, 3))

nothing_cached-IsValid : IsValid nothing_cached
nothing_cached-IsValid = record { sorted = tt; bounded = omega arith }

nothing_cached-IsFaithful : IsFaithful test_json test_hashes Known nothing_cached
unfolding program
nothing_cached-IsFaithful = record {
  valid = nothing_cached-IsValid;
  faithful = λ h v x at reads. absurd (ground arith);
}

test_handle-Serves : Serves test_json test_hashes Known test_handle
test_handle-Serves h n x found = ground (arith, ==_iff h 7)

test_state-AllServe : AllServe test_json test_hashes test_merkle test_state Known
test_state-AllServe bit_coin handle on =
    let same : test_handle ≡ handle = cc in
    subst (Serves test_json test_hashes Known) same test_handle-Serves
test_state-AllServe doge_coin handle on = absurd (ground arith)

abbrev payload : List (TestValue ⊎ BtcReq test_json)
payload =
    inr (record { method = "getblockheader"; params = pair (text "00") (number 1); id = number 1 })
    ∷ inr (record { method = "getblockhash"; params = number 5; id = number 2 })
    ∷ []

handle_fetch_header-IsFaithful_example :
    IsFaithful test_json test_hashes Known
      (handle_fetch_header test_json test_hashes test_handle payload nothing_cached).1
handle_fetch_header-IsFaithful_example =
    handle_fetch_header-IsFaithful test_json test_hashes Known test_handle payload nothing_cached
      test_handle-Serves nothing_cached-IsFaithful

abbrev proof_block : Block × ℕ
proof_block = ((7, 3), 3)

abbrev wanted : MerkleProofParam
wanted = record { txids = 11 ∷ []; blockhash = some 7; chain = bit_coin }

abbrev header_cached : ResponseCache test_json
header_cached = record { map = (hash_bytes 7, header_object (7, 3) none) ∷ []; size = 10 }

accepted :
    verify_txid test_json test_hashes test_merkle test_state proof_block wanted nothing_cached
    ≡ (ok (3 ∷ []), header_cached)
unfolding program
accepted = refl

verify_txid_sound_example :
    Checked test_json test_hashes test_merkle test_state Known proof_block wanted (3 ∷ [])
    × IsFaithful test_json test_hashes Known header_cached
verify_txid_sound_example =
    verify_txid_sound test_json test_hashes test_merkle test_state Known proof_block wanted (3 ∷ [])
      nothing_cached header_cached test_state-AllServe nothing_cached-IsFaithful accepted

verify_txid_any_example :
    verify_txid test_json test_hashes test_merkle test_state proof_block
      (record wanted { txids = 99 ∷ [] })
      nothing_cached
    ≡ (ok (3 ∷ []), header_cached)
verify_txid_any_example =
    verify_txid_any test_json test_hashes test_merkle test_state proof_block wanted (99 ∷ [])
      (3 ∷ []) nothing_cached header_cached accepted

uncached : (key : List ℕ) → Cache.get nothing_cached key ≡ none
unfolding program
uncached key = refl

-- The cache that holds the header in hex.
abbrev hex_cached : ResponseCache test_json
hex_cached =
    (getblockheader_of test_json test_hashes test_handle false 7 (number 1) nothing_cached).1

abbrev hash_cached : ResponseCache test_json
hash_cached = (getblockhash_of test_json test_hashes test_handle 5 (number 1) nothing_cached).1

getblockhash_twice_example :
    ((getblockhash_of test_json test_hashes test_handle 5 (number 1) nothing_cached).0
      ≡ answer (number 1) (text "hash"))
    × (getblockhash_of test_json test_hashes test_handle 5 (number 2) hash_cached
        ≡ (answer (number 2) (header_object (7, 3) none), hash_cached))
getblockhash_twice_example =
    getblockhash_twice test_json test_hashes test_handle test_handle 5 (7, 3) (number 1) (number 2)
      nothing_cached nothing_cached-IsValid (uncached (to_be_bytes 5)) refl

-- A proof in the block, asked for in no block.
abbrev any_block : MerkleProofParam
any_block = record { txids = 11 ∷ []; blockhash = none; chain = bit_coin }

getblockheader_hex_example :
    (getblockheader_of test_json test_hashes test_handle true 7 (number 2) hex_cached
      ≡ (answer (number 2) (text "hex"), hex_cached))
    × (verify_txid test_json test_hashes test_merkle test_state proof_block any_block hex_cached
        ≡ (err header_unreadable, hex_cached))
getblockheader_hex_example =
    getblockheader_hex test_json test_hashes test_handle test_handle 7 5 (7, 3) (number 1)
      (number 2) true nothing_cached test_merkle test_state proof_block any_block 3 (11 ∷ [])
      nothing_cached-IsValid (uncached (hash_bytes 7)) refl refl refl refl

-- A pair whose first part is not a text stands for an object with that identifier and the method in the
-- second part; one whose first part is a text, for an array of a method and an identifier.
abbrev is_object : TestValue → Bool
is_object (pair (text m) i) = false
is_object (pair i v) = true
is_object (header_object b n) = true
is_object _ = false

abbrev request_of : TestValue → Option (BtcReq test_json)
request_of (pair (text m) i) = some (record { method = m; params = i; id = i })
request_of (pair i (text m)) = some (record { method = m; params = pair i i; id = i })
request_of _ = none

abbrev member_of : TestValue → String → Option TestValue
member_of (pair (text m) i) name = none
member_of (pair i v) name = if string_eq.beq name "id" then some i else none
member_of _ name = none

abbrev id_part : Option (BtcReq test_json) → Option TestValue
id_part none = none
id_part (some req) = some req.id

request_of_id :
    (v : TestValue) (req : BtcReq test_json)
    → is_object v ≡ true
    → request_of v ≡ some req
    → member_of v "id" ≡ some req.id
request_of_id (pair (number n) (text m)) req object eq = ap id_part eq
request_of_id (pair (header_object b n) (text m)) req object eq = ap id_part eq
request_of_id (pair (pair v w) (text m)) req object eq = ap id_part eq
request_of_id v req object eq = ground arith

abbrev test_members : Members test_json
test_members = record {
  is_object = is_object;
  get = member_of;
  one = number 1;
  btc_req = λ v. none;
  btc_req_no_json_rpc = request_of;
  btc_req_id = λ v req object eq. absurd (ground arith);
  btc_req_no_json_rpc_id = request_of_id;
}

-- A request with an identifier, one without a method, and an object with none of the members.
abbrev test_payload : List TestValue
test_payload =
    pair (number 8) (text "getblockhash")
    ∷ pair (number 9) (number 3)
    ∷ header_object (7, 3) none
    ∷ []

handle_fetch_header-ids_example :
    map
      (λ (resp : BtcResp test_json). resp.id)
      (handle_fetch_header test_json test_hashes test_handle
        (map (parse_request test_members) test_payload)
        nothing_cached).0
    ≡ number 8 ∷ number 9 ∷ number 1 ∷ []
handle_fetch_header-ids_example =
    handle_fetch_header-ids test_json test_hashes test_handle test_members test_payload
      nothing_cached (refl, (refl, (refl, tt)))

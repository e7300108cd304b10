-- ===== src/BtcRpc/Sample.antt =====
-- Data for the tests of the Bitcoin RPC: JSON values, a client with one block, and proofs.
use sxn_spv.Common.{ℕ, refl, inr, String, Option, none, some, List, [], ◌∷◌, ◌==◌, if◌then◌else◌}
use sxn_spv.Common.Order.{bytes_ord}
use sxn_spv.Bitcoin.{Bitcoin}
use sxn_spv.BtcRpc.Types.{Json, Hashes, Handle, ResponseCache}
use sxn_spv.BtcRpc.ChainState.{Merkle, ChainsState}

-- A header is its hash and its Merkle root.
abbrev pub Block : Type 0
Block = ℕ × ℕ

abbrev pub test_bitcoin : Bitcoin
test_bitcoin = record {
  BlockHeader = Block;
  prev_blockhash = λ b. 0;
  merkle_root = λ b. b.1;
  time = λ b. 0;
  block_hash = λ b. b.0;
}

pub data TestValue : Type 0 where
  number : ℕ → TestValue
  text : String → TestValue
  header_object : Block → Option ℕ → TestValue
  pair : TestValue → TestValue → TestValue

abbrev pub as_number : TestValue → Option ℕ
as_number (number n) = some n
as_number _ = none

abbrev pub as_text : TestValue → Option String
as_text (text s) = some s
as_text _ = none

abbrev pub as_pair : TestValue → Option (List TestValue)
as_pair (pair a b) = some (a ∷ b ∷ [])
as_pair (number n) = some (number n ∷ [])
as_pair _ = none

abbrev pub add_height : ℕ → TestValue → TestValue
add_height n (header_object b old) = header_object b (some n)
add_height n v = v

abbrev pub as_header : TestValue → Option Block
as_header (header_object b n) = some b
as_header _ = none

abbrev pub test_json : Json test_bitcoin
test_json = record {
  Value = TestValue;
  as_bool = λ v. none;
  as_u64 = as_number;
  as_str = as_text;
  as_array = as_pair;
  of_string = text;
  of_header = λ b. header_object b none;
  with_height = add_height;
  to_header = as_header;
  header_read = λ h. refl;
  height_ignored = λ n h. refl;
  string_not_header = λ s. refl;
}

-- 32 bytes, the first of which is the number.
abbrev pub hash_bytes : ℕ → List ℕ
hash_bytes h =
    h ∷ 0 ∷ 0 ∷ 0 ∷ 0 ∷ 0 ∷ 0 ∷ 0 ∷ 0 ∷ 0 ∷ 0 ∷ 0 ∷ 0 ∷ 0 ∷ 0 ∷ 0 ∷ 0 ∷ 0 ∷ 0 ∷ 0 ∷ 0 ∷ 0 ∷ 0 ∷ 0
    ∷ 0 ∷ 0 ∷ 0 ∷ 0 ∷ 0 ∷ 0 ∷ 0 ∷ 0 ∷ []

abbrev pub test_hashes : Hashes test_bitcoin
test_hashes = record {
  from_str = λ s. some 7;
  to_string = λ h. "hash";
  header_hex = λ b. "hex";
  to_vec = hash_bytes;
  to_vec_injective = λ g h same. cc;
  to_vec_length = λ h. refl;
}

-- The block with hash 7 and root 3, at height 5.
abbrev pub test_handle : Handle test_bitcoin
test_handle = record {
  get_tip = inr (5, (7, 3));
  get_block = λ h. if h == 7 then inr (some (5, (7, 3))) else inr none;
  get_block_by_height = λ n. if n == 5 then inr (some (7, 3)) else inr none;
}

-- A proof is its header, its root and its transactions.
abbrev pub test_merkle : Merkle test_bitcoin
test_merkle = record {
  MerkleBlock = Block × ℕ;
  header = λ mb. mb.0;
  extract_matches = λ mb. some (mb.1, 11 ∷ []);
  serialize = λ mb. mb.1 ∷ [];
}

abbrev pub test_state : ChainsState test_merkle
test_state = record {
  daemon = some (λ p. inr ((7, 3), 3));
  doge_daemon = none;
  handle = some test_handle;
  doge_handle = none;
}

abbrev pub nothing_cached : ResponseCache test_json
nothing_cached = record { map = []; size = 10 }

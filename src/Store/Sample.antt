-- ===== src/Store/Sample.antt =====
-- Headers, hashes and their bytes for runs of the store and of the indexer.
use sxn_spv.Common.{ℕ, refl, Option, none, some, [], ◌∷◌}
use sxn_spv.Bitcoin.{Bitcoin}
use sxn_spv.Store.{Bytes, Codec}

-- A header is the hash before it, and its own hash.
abbrev pub Block : Type 0
Block = ℕ × ℕ

abbrev pub test_bitcoin : Bitcoin
test_bitcoin = record {
  BlockHeader = Block;
  prev_blockhash = λ b. b.0;
  merkle_root = λ b. 0;
  time = λ b. 0;
  block_hash = λ b. b.1;
}

abbrev pub first_byte : Bytes → Option ℕ
first_byte [] = none
first_byte (h ∷ bytes) = some h

abbrev pub two_bytes : Bytes → Option Block
two_bytes (a ∷ b ∷ bytes) = some (a, b)
two_bytes _ = none

abbrev pub tail : Bytes → Bytes
tail [] = []
tail (b ∷ bytes) = bytes

-- 32 bytes, the first of which is the number.
abbrev pub hash_32 : ℕ → Bytes
hash_32 h =
    h ∷ 0 ∷ 0 ∷ 0 ∷ 0 ∷ 0 ∷ 0 ∷ 0 ∷ 0 ∷ 0 ∷ 0 ∷ 0 ∷ 0 ∷ 0 ∷ 0 ∷ 0 ∷ 0 ∷ 0 ∷ 0 ∷ 0 ∷ 0 ∷ 0 ∷ 0 ∷ 0
    ∷ 0 ∷ 0 ∷ 0 ∷ 0 ∷ 0 ∷ 0 ∷ 0 ∷ 0 ∷ []

abbrev pub test_codec : Codec test_bitcoin
test_codec = record {
  hash_bytes = hash_32;
  parse_hash = first_byte;
  hash_parsed = λ h. refl;
  hash_length = λ h. refl;
  header_bytes = λ b. b.0 ∷ b.1 ∷ [];
  parse_header = two_bytes;
  header_parsed = λ b. refl;
  seal_data = λ v. 77 ∷ v;
  unseal_data = tail;
  unsealed = λ v. refl;
}

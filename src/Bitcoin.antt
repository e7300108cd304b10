-- ===== src/Bitcoin.antt =====
-- What the program takes from the `bitcoin` crate: block headers with the fields that it reads, and
-- the hash of a header. A block hash is the number that its 32 bytes spell.
use sxn_spv.Common.{ℕ}

abbrev pub BlockHash : Type 0
BlockHash = ℕ

-- `BlockHash::all_zeros()`
abbrev pub all_zeros : BlockHash
all_zeros = 0

pub record Bitcoin : Type 1 where
  pub BlockHeader : Type 0
  pub prev_blockhash : BlockHeader → BlockHash
  pub merkle_root : BlockHeader → ℕ
  pub time : BlockHeader → ℕ
  pub block_hash : BlockHeader → BlockHash

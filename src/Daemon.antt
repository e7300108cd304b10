-- ===== src/Daemon.antt =====
-- How the headers of a node are fetched: `get_all_headers` and `get_new_headers` of src/daemon.rs, over the
-- requests that they make.
pub mod AllHeaders
pub mod NewHeaders
pub mod Reply
pub mod Batch
pub mod Decode
pub mod Client
mod Tests
use sxn_spv.Common.{
  ℕ, zero, suc, ◌+◌, ◌⊎◌, inl, inr, String, Bool, true, false, Option, none, some, List, [], ◌∷◌,
  ◌++◌, reverse, length, take, drop, ◌==◌, if◌then◌else◌,
}
use sxn_spv.Common.Outcome.{Outcome, Panics, ok, err, panic, ◌>>=◌, ◌>>◌, assert}
use sxn_spv.Bitcoin.{Bitcoin, BlockHash, all_zeros}
use sxn_spv.Header.{HeaderEntry, HeaderList, header_by_blockhash, is_empty}

pub data DaemonError : Type 0 where
  request_error : String → DaemonError
  header_failed : BlockHash → DaemonError

-- A node: the height that it gives for a block (`none` where the reply has no height, or one that is
-- no number), its headers at some heights, and its header for a hash.
pub record Daemon (bitcoin : Bitcoin) : Type 0 where
  pub block_height : BlockHash → String ⊎ Option ℕ
  pub getblockheaders : List ℕ → String ⊎ List bitcoin.BlockHeader
  pub getblockheader : BlockHash → String ⊎ bitcoin.BlockHeader

abbrev pub requested : {A : Type 0} → String ⊎ A → Outcome DaemonError A
requested (inl e) = err (request_error e)
requested (inr a) = ok a

abbrev pub expected : {A : Type 0} → Option A → Outcome DaemonError A
expected none = panic
expected (some a) = ok a

-- `0..n`
unfoldable pub range_from : ℕ → ℕ → List ℕ
range_from start zero = []
range_from start (suc n) = start ∷ range_from (start + 1) n

-- `chunks`: the pieces of a list, each of `size` elements but the last. There are at most as many
-- pieces as elements.
unfoldable pub chunks : {A : Type 0} → ℕ → ℕ → List A → List (List A)
chunks zero size xs = []
chunks (suc pieces) size [] = []
chunks (suc pieces) size (x ∷ xs) = take size (x ∷ xs) ∷ chunks pieces size (drop size (x ∷ xs))

module _ {bitcoin : Bitcoin} (daemon : Daemon bitcoin) where
  open bitcoin use {BlockHeader, prev_blockhash, block_hash}

  unfoldable pub download : List (List ℕ) → Outcome DaemonError (List BlockHeader)
  download [] = ok []
  download (heights ∷ rest) = do
    headers ← requested (daemon.getblockheaders heights)
    assert (length headers == length heights)
    more ← download rest
    ok (headers ++ more)

  -- The loop over the result: each header points to the one before. It returns the last hash.
  unfoldable pub assert_chain : BlockHash → List BlockHeader → Outcome DaemonError BlockHash
  assert_chain blockhash [] = ok blockhash
  assert_chain blockhash (header ∷ headers) = do
    assert (prev_blockhash header == blockhash)
    assert_chain (block_hash header) headers

  unfoldable pub get_all_headers : BlockHash → Outcome DaemonError (List BlockHeader)
  get_all_headers tip = do
    height ← requested (daemon.block_height tip)
    tip_height ← expected height
    result ← download (chunks (tip_height + 1) 100000 (range_from 0 (tip_height + 1)))
    blockhash ← assert_chain all_zeros result
    assert (blockhash == tip)
    ok result

  abbrev pub fetched : BlockHash → String ⊎ BlockHeader → Outcome DaemonError BlockHeader
  fetched blockhash (inl e) = err (header_failed blockhash)
  fetched blockhash (inr header) = ok header

  abbrev pub is_known : Option (HeaderEntry bitcoin) → Bool
  is_known none = false
  is_known (some e) = true

  -- From a hash back to a block of the list, or to the null hash. `none` is out of fuel: a node that
  -- gives new headers without end is followed without end.
  unfoldable pub headers_back :
      ℕ
      → HeaderList bitcoin
      → BlockHash
      → List BlockHeader
      → Option (Outcome DaemonError (List BlockHeader))
  headers_back zero indexed_headers blockhash new_headers = none
  headers_back (suc fuel) indexed_headers blockhash new_headers =
      if blockhash == all_zeros
      then some (ok new_headers)
      else if is_known (header_by_blockhash indexed_headers blockhash)
      then some (ok new_headers)
      else elim (fetched blockhash (daemon.getblockheader blockhash)) [
        | err e ↦ some (err e)
        | panic ↦ some panic
        | ok header ↦
            headers_back fuel indexed_headers (prev_blockhash header) (header ∷ new_headers)
      ]

  unfoldable pub get_new_headers :
      ℕ → HeaderList bitcoin → BlockHash → Option (Outcome DaemonError (List BlockHeader))
  get_new_headers fuel indexed_headers bestblockhash =
      if is_empty indexed_headers
      then some (get_all_headers bestblockhash)
      else headers_back fuel indexed_headers bestblockhash []

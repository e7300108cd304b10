-- ===== src/Store.antt =====
-- The database of headers of src/store.rs: rows of bytes, sealed, in the order of their keys; the rows of
-- a header; and how the list of headers is read back.
pub mod Scan
pub mod Load
pub mod Put
pub mod Reopen
pub mod Synced
pub mod Open
pub mod Sample
mod Tests
use sxn_spv.Common.{
  ℕ, ◌+◌, ◌≡◌, Bool, true, false, ◌&&◌, Option, none, some, List, [], ◌∷◌, ◌++◌, length, take, leb,
  ◌==◌, if◌then◌else◌,
}
use sxn_spv.Common.Outcome.{Outcome, Panics, ok, err, panic, ◌>>=◌, unwrap}
use sxn_spv.Common.Classes.{nat_eq}
use sxn_spv.Common.Order.{Ord, bytes_ord}
use sxn_spv.Common.HashMap
use sxn_spv.Common.HashMap.{HashMap}
use sxn_spv.Common.BTreeMap
use sxn_spv.Common.BTreeMap.{BTreeMap}
use sxn_spv.Bitcoin.{Bitcoin, BlockHash}
use sxn_spv.Header
use sxn_spv.Header.{HeaderEntry, HeaderList}

abbrev pub Bytes : Type 0
Bytes = List ℕ

-- The encodings of hashes and headers, and the sealing of values by the enclave.
pub record Codec (bitcoin : Bitcoin) : Type 0 where
  pub hash_bytes : BlockHash → Bytes
  pub parse_hash : Bytes → Option BlockHash
  pub hash_parsed : (h : BlockHash) → parse_hash (hash_bytes h) ≡ some h
  pub hash_length : (h : BlockHash) → length (hash_bytes h) ≡ 32
  pub header_bytes : bitcoin.BlockHeader → Bytes
  pub parse_header : Bytes → Option bitcoin.BlockHeader
  pub header_parsed : (x : bitcoin.BlockHeader) → parse_header (header_bytes x) ≡ some x
  pub seal_data : Bytes → Bytes
  pub unseal_data : Bytes → Bytes
  pub unsealed : (v : Bytes) → unseal_data (seal_data v) ≡ v

-- The key and the value of a row.
abbrev pub DbRow : Type 0
DbRow = Bytes × Bytes

abbrev pub Db : Type 0
Db = BTreeMap Bytes Bytes

abbrev pub starts_with : Bytes → Bytes → Bool
starts_with [] key = true
starts_with (p ∷ prefix) [] = false
starts_with (p ∷ prefix) (k ∷ key) = (p == k) && starts_with prefix key

-- `prefix_iterator` begins at the first key that is not below the prefix.
abbrev pub skip_below : Bytes → Db → Db
skip_below prefix [] = []
skip_below prefix ((k, v) ∷ db) =
    if bytes_ord.lt k prefix then skip_below prefix db else (k, v) ∷ db

module _ {bitcoin : Bitcoin} (codec : Codec bitcoin) where
  open bitcoin use {BlockHeader}
  open codec use {hash_bytes, parse_hash, header_bytes, parse_header, seal_data, unseal_data}

  unfoldable pub put : Db → Bytes → Bytes → Db
  put db key value = BTreeMap.insert key (seal_data value) db

  abbrev pub unseal_some : Option Bytes → Option Bytes
  unseal_some none = none
  unseal_some (some v) = some (unseal_data v)

  unfoldable pub get : Db → Bytes → Option Bytes
  get db key = unseal_some (BTreeMap.get key db)

  -- The rows of a batch, in order.
  unfoldable pub write : Db → List DbRow → Db
  write db [] = db
  write db ((key, value) ∷ rows) = write (put db key value) rows

  -- `ScanIterator` ends at the first key without the prefix.
  abbrev pub take_prefix : Bytes → Db → List DbRow
  take_prefix prefix [] = []
  take_prefix prefix ((k, v) ∷ db) =
      if starts_with prefix k then (k, unseal_data v) ∷ take_prefix prefix db else []

  unfoldable pub iter_scan : Db → Bytes → List DbRow
  iter_scan db prefix = take_prefix prefix (skip_below prefix db)

  -- `b` and `D`
  unfoldable pub first_sync_header : HeaderEntry bitcoin → DbRow
  first_sync_header e = (98 ∷ hash_bytes e.hash, header_bytes e.header)

  unfoldable pub new_done : BlockHash → DbRow
  new_done h = (68 ∷ hash_bytes h, [])

  unfoldable pub add_sync_headers : List (HeaderEntry bitcoin) → List DbRow
  unfolding first_sync_header new_done
  add_sync_headers [] = []
  add_sync_headers (e ∷ es) = first_sync_header e ∷ new_done e.hash ∷ add_sync_headers es

  -- `BlockRow::from_row`: a key begins with a code and a hash of 32 bytes, and more bytes are let pass.
  abbrev pub key_hash : Bytes → Panics Bytes
  key_hash [] = panic
  key_hash (code ∷ hash) = if leb 32 (length hash) then ok (take 32 hash) else panic

  unfoldable pub collect_headers :
      List DbRow → HashMap BlockHash BlockHeader → Panics (HashMap BlockHash BlockHeader)
  collect_headers [] m = ok m
  collect_headers ((k, v) ∷ rows) m = do
    hash ← key_hash k
    key ← unwrap (parse_hash hash)
    value ← unwrap (parse_header v)
    collect_headers rows (HashMap.insert key value m)

  unfoldable pub load_sync_blockheaders : Db → Panics (HashMap BlockHash BlockHeader)
  load_sync_blockheaders db = collect_headers (iter_scan db (98 ∷ [])) []

  unfoldable pub collect_hashes : List DbRow → Panics (List BlockHash)
  collect_hashes [] = ok []
  collect_hashes ((k, v) ∷ rows) = do
    hash ← key_hash k
    key ← unwrap (parse_hash hash)
    rest ← collect_hashes rows
    ok (key ∷ rest)

  unfoldable pub load_blockhashes : Db → Panics (List BlockHash)
  load_blockhashes db = collect_hashes (iter_scan db (68 ∷ []))

  abbrev pub new_or_panic :
      BlockHash → Panics (HashMap BlockHash BlockHeader) → Option (Panics (HeaderList bitcoin))
  new_or_panic tip_hash (ok headers_map) = Header.new bitcoin headers_map tip_hash
  new_or_panic tip_hash (err e) = elim e [ ]
  new_or_panic tip_hash panic = some panic

  abbrev pub tip_or_panic : Db → Option BlockHash → Option (Panics (HeaderList bitcoin))
  tip_or_panic db none = some panic
  tip_or_panic db (some tip_hash) = new_or_panic tip_hash (load_sync_blockheaders db)

  -- The list of headers in `open` and in `reload_store`: by the tip under `t`, or empty.
  unfoldable pub load_headers : Db → Option (Panics (HeaderList bitcoin))
  load_headers db = elim (get db (116 ∷ [])) [
    | none ↦ some (ok Header.empty)
    | some tip_bytes ↦ tip_or_panic db (parse_hash tip_bytes)
  ]

-- ===== src/Indexer.antt =====
-- `Indexer` of src/index.rs: one round of synchronisation with a node, and `start_indexer` of src/main.rs.
pub mod Chains
pub mod Node
pub mod Ready
pub mod Filter
pub mod Written
pub mod Round
pub mod Fresh
pub mod Loop
pub mod Version
pub mod Opened
pub mod Checked
mod Tests
pub mod Chunks
use sxn_spv.Common.{
  ℕ, zero, suc, ◌+◌, String, Bool, true, false, not, ◌||◌, Option, none, some, List, [], ◌∷◌, ◌++◌,
  map, length, keep, ◌==◌, if◌then◌else◌,
}
use sxn_spv.Common.Outcome.{Outcome, Panics, ok, err, panic}
use sxn_spv.Bitcoin.{Bitcoin, BlockHash}
use sxn_spv.Header
use sxn_spv.Header.{HeaderEntry, HeaderList, order, apply}
use sxn_spv.Daemon.{Daemon, DaemonError, chunks, get_new_headers}
use sxn_spv.Store.{Bytes, DbRow, Db, Codec, put, write, add_sync_headers}
use sxn_spv.Store.Open.{Store, reload_store}

pub data SyncError : Type 0 where
  daemon_error : DaemonError → SyncError
  tip_not_equal : SyncError

-- `HashSet::contains`
abbrev pub holds : BlockHash → List BlockHash → Bool
holds hash [] = false
holds hash (h ∷ hashes) = (h == hash) || holds hash hashes

abbrev pub hashes_of : {bitcoin : Bitcoin} → List (HeaderEntry bitcoin) → List BlockHash
hashes_of = map (λ e. e.hash)

unfoldable pub sync_headers_to_add :
    {bitcoin : Bitcoin} → Store bitcoin → List (HeaderEntry bitcoin) → List (HeaderEntry bitcoin)
sync_headers_to_add store new_headers =
    keep (λ e. not (holds e.hash store.synced_blockhashes)) new_headers

module _ {bitcoin : Bitcoin} (codec : Codec bitcoin) where
  unfoldable pub write_chunks : Db → List (List DbRow) → Db
  write_chunks db [] = db
  write_chunks db (rows ∷ rest) = write_chunks (write codec db rows) rest

  unfoldable pub add_sync_block_header : Store bitcoin → List (HeaderEntry bitcoin) → Store bitcoin
  add_sync_block_header store headers =
      let rows = add_sync_headers codec headers in
      record store {
        sync_db = write_chunks store.sync_db (chunks (length rows) 50000 rows);
        synced_blockhashes = hashes_of headers ++ store.synced_blockhashes;
      }

  -- What a round ends in, and the store that it leaves. `none` is out of fuel.
  abbrev pub Round : Type 0
  Round = Option (Outcome SyncError (Unit {0}) × Store bitcoin)

  abbrev pub reloaded : Store bitcoin → Option (Panics (Store bitcoin)) → Round
  reloaded store none = none
  reloaded store (some (ok store')) = some (err tip_not_equal, store')
  reloaded store (some (err e)) = elim e [ ]
  reloaded store (some panic) = some (panic, store)

  abbrev pub compared : Store bitcoin → BlockHash → Panics BlockHash → Round
  compared store tip (ok t) = elim (tip == t) [
    | true ↦ some (ok tt, store)
    | false ↦ reloaded store (reload_store codec store)
  ]
  compared store tip (err e) = elim e [ ]
  compared store tip panic = some (panic, store)

  abbrev pub applied : Store bitcoin → BlockHash → Panics (HeaderList bitcoin) → Round
  applied store tip (ok headers_sync) =
      compared (record store { sync_headers = headers_sync }) tip (Header.tip headers_sync)
  applied store tip (err e) = elim e [ ]
  applied store tip panic = some (panic, store)

  -- The store after the rows of the new headers and the tip were written.
  unfoldable pub written : Store bitcoin → BlockHash → List (HeaderEntry bitcoin) → Store bitcoin
  written store tip to_add =
      let added = add_sync_block_header store to_add in
      record added { sync_db = put codec added.sync_db (116 ∷ []) (codec.hash_bytes tip) }

  abbrev pub ordered : Store bitcoin → BlockHash → Panics (List (HeaderEntry bitcoin)) → Round
  ordered store tip (ok sync_header_result) =
      let to_add = sync_headers_to_add store sync_header_result in
      applied (written store tip to_add) tip (apply store.sync_headers to_add)
  ordered store tip (err e) = elim e [ ]
  ordered store tip panic = some (panic, store)

  abbrev pub downloaded :
      Store bitcoin → BlockHash → Option (Outcome DaemonError (List bitcoin.BlockHeader)) → Round
  downloaded store tip none = none
  downloaded store tip (some (ok new_headers)) =
      ordered store tip (order store.sync_headers new_headers)
  downloaded store tip (some (err e)) = some (err (daemon_error e), store)
  downloaded store tip (some panic) = some (panic, store)

  unfoldable pub sync_headers : ℕ → Daemon bitcoin → Store bitcoin → BlockHash → Round
  sync_headers fuel daemon store tip =
      downloaded store tip (get_new_headers daemon fuel store.sync_headers tip)

-- ===== src/Indexer/Opened.antt =====
-- `open` of src/store.rs: on an empty database, and on the one that a round of src/index.rs leaves.
use sxn_spv.Common.{ℕ, ◌≡◌, ◌≢◌, ◌∙◌, All, refl, some, List, [], ◌∷◌, arith}
use sxn_spv.Common.Outcome.{Outcome, ok, panic}
use sxn_spv.Common.Order.{bytes_ord}
use sxn_spv.Common.BTreeMap
use sxn_spv.Bitcoin.{Bitcoin, BlockHash}
use sxn_spv.Header
use sxn_spv.Header.{HeaderEntry, HeaderList, order, apply}
use sxn_spv.Store.{
  Bytes, Db, Codec, put, get, iter_scan, collect_hashes, load_blockhashes, load_headers,
}
use sxn_spv.Store.Put.{get-put}
use sxn_spv.Store.Open.{Store, compatibility_bytes, verify_compatibility, read_store, open_store}
use sxn_spv.Indexer.Written.{IsSynced, IsSettled}
use sxn_spv.Indexer.Version.{sync_headers-KeepsVersion, open_store-versioned, open_store-other}
use sxn_spv.Indexer.Round.{sync_headers-Recovers}
use sxn_spv.Indexer.Chains.{Injective, Proper}
use sxn_spv.Indexer.{SyncError, sync_headers}
use sxn_spv.Daemon.{Daemon, get_new_headers}
use sxn_spv.Daemon.NewHeaders.{IsHonest}
use sxn_spv.Indexer.Loop.Invariant.{Reads}

module _ {bitcoin : Bitcoin} (codec : Codec bitcoin) where
  -- The store of an empty database, which has its version.
  abbrev pub new_db : Db
  new_db = put codec [] (86 ∷ []) compatibility_bytes

  abbrev pub new_store : Store bitcoin
  new_store = record { sync_db = new_db; synced_blockhashes = []; sync_headers = Header.empty }

  verify_new : verify_compatibility codec [] ≡ ok new_db
  unfolding verify_compatibility get BTreeMap.get
  verify_new = refl

  read_new : read_store codec new_db ≡ some (ok new_store)
  unfolding read_store load_blockhashes load_headers put BTreeMap.insert iter_scan collect_hashes
      get BTreeMap.get
  read_new = refl

  module _ (IsSeen : bitcoin.BlockHeader → Type 0) where
    new_store-IsSynced : IsSynced codec IsSeen new_store
    unfolding put BTreeMap.insert get BTreeMap.get
    new_store-IsSynced = record {
      ready = record {
        readable = record { sorted = (tt, tt); rows = (λ h. absurd (ground (arith, h)), tt) };
        done = (λ h. absurd (ground (arith, h)), tt);
        marked = λ h v at. absurd (ground (arith, at));
      };
      kept = λ h found. absurd (ground (arith, found));
      valid = record {
        linked = tt;
        tip_last = refl;
        indexed = λ i e at. absurd (ground (arith, at));
      };
      good = λ i e at. absurd (ground (arith, at));
      held = λ i e at. absurd (ground (arith, at));
    }

    -- A store that is opened on an empty database is in order, has no headers, and is read again.
    pub open_store-empty :
        (open_store codec [] ≡ some (ok new_store))
        × IsSynced codec IsSeen new_store
        × Reads codec IsSeen new_db
    unfolding open_store
    open_store-empty = (
      rw (verify_new, read_new) refl,
      new_store-IsSynced,
      (new_store, read_new, new_store-IsSynced),
    )

  module _ (IsSeen : bitcoin.BlockHeader → Type 0) (injective : Injective bitcoin IsSeen)
      (proper : Proper bitcoin IsSeen) where
    -- One round, from a store that is in order and whose database has the version of this program, once a
    -- node that gives every hash its own header has answered: however the round ends, also with a panic, the
    -- database that it leaves has that version and is opened at the next start, without a further row, as a
    -- store that is in order and whose list ends at the block that was asked for. A start panics instead if
    -- any other version has been put in that database.
    pub sync_headers-open_store :
        (fuel : ℕ) (daemon : Daemon bitcoin) (store : Store bitcoin) (best : BlockHash)
        (new : List bitcoin.BlockHeader) (other : Bytes)
        → IsSynced codec IsSeen store
        → get codec store.sync_db (86 ∷ []) ≡ some compatibility_bytes
        → IsHonest daemon store.sync_headers
        → get_new_headers daemon fuel store.sync_headers best ≡ some (ok new)
        → All IsSeen new
        → other ≢ compatibility_bytes
        → (r : Outcome SyncError (Unit {0})) × (left : Store bitcoin) × (found : Store bitcoin)
          × (sync_headers codec fuel daemon store best ≡ some (r, left))
          × (get codec left.sync_db (86 ∷ []) ≡ some compatibility_bytes)
          × (open_store codec left.sync_db ≡ some (ok found))
          × (found.sync_db ≡ left.sync_db)
          × IsSettled codec IsSeen best found
          × (open_store codec (put codec left.sync_db (86 ∷ []) other) ≡ some panic)
    sync_headers-open_store fuel daemon store best new other s version honest got seen differs =
        let (r, left, ended_in, (found, read, same_db, settled), outcomes) =
          sync_headers-Recovers codec IsSeen injective proper fuel daemon store best new s honest
            got seen in
        let kept =
          sync_headers-KeepsVersion codec fuel daemon store best r left ended_in ∙ version in
        let changed = get-put codec left.sync_db (86 ∷ []) (86 ∷ []) other in
        (
          r,
          left,
          found,
          ended_in,
          kept,
          open_store-versioned codec left.sync_db kept ∙ read,
          same_db,
          settled,
          open_store-other codec (put codec left.sync_db (86 ∷ []) other) other changed differs,
        )

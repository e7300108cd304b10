-- ===== src/Store/Open.antt =====
-- `Store` of src/store.rs: the database with the version under `V`, the hashes that were synced, and the
-- list of headers; and how a store is opened and read again.
use sxn_spv.Common.{true, false, Option, none, some, List, [], ◌∷◌}
use sxn_spv.Common.Outcome.{Panics, ok, err, panic}
use sxn_spv.Common.Order.{bytes_ord}
use sxn_spv.Bitcoin.{Bitcoin, BlockHash}
use sxn_spv.Header.{HeaderList}
use sxn_spv.Store.{Bytes, Db, Codec, put, get, load_blockhashes, load_headers}

pub record Store (bitcoin : Bitcoin) : Type 0 where
  pub sync_db : Db
  pub synced_blockhashes : List BlockHash
  pub sync_headers : HeaderList bitcoin

-- `DB_VERSION`, 2, as four bytes.
abbrev pub compatibility_bytes : Bytes
compatibility_bytes = 2 ∷ 0 ∷ 0 ∷ 0 ∷ []

module _ {bitcoin : Bitcoin} (codec : Codec bitcoin) where
  -- `V`
  abbrev pub compatible : Db → Option Bytes → Panics Db
  compatible db none = ok (put codec db (86 ∷ []) compatibility_bytes)
  compatible db (some x) = elim (bytes_ord.eq x compatibility_bytes) [
    | true ↦ ok db
    | false ↦ panic
  ]

  unfoldable pub verify_compatibility : Db → Panics Db
  verify_compatibility db = compatible db (get codec db (86 ∷ []))

  abbrev pub store_of :
      Db
      → Panics (List BlockHash)
      → Option (Panics (HeaderList bitcoin))
      → Option (Panics (Store bitcoin))
  store_of db (ok hashes) (some (ok headers)) =
      some (ok (record { sync_db = db; synced_blockhashes = hashes; sync_headers = headers }))
  store_of db (ok hashes) (some (err e)) = elim e [ ]
  store_of db (ok hashes) (some panic) = some panic
  store_of db (ok hashes) none = none
  store_of db (err e) headers = elim e [ ]
  store_of db panic headers = some panic

  -- The sets of `open` and of `reload_store`, which read the same rows in the same order.
  unfoldable pub read_store : Db → Option (Panics (Store bitcoin))
  read_store db = store_of db (load_blockhashes codec db) (load_headers codec db)

  abbrev pub read_compatible : Panics Db → Option (Panics (Store bitcoin))
  read_compatible (ok db) = read_store db
  read_compatible (err e) = elim e [ ]
  read_compatible panic = some panic

  -- From the rows that the database files hold.
  unfoldable pub open_store : Db → Option (Panics (Store bitcoin))
  open_store db = read_compatible (verify_compatibility db)

  unfoldable pub reload_store : Store bitcoin → Option (Panics (Store bitcoin))
  reload_store store = read_store store.sync_db

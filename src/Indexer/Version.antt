-- ===== src/Indexer/Version.antt =====
-- The version row of the database in a round of src/index.rs, and when `open` of src/store.rs accepts it.
use sxn_spv.Common.{
  ℕ, ◌≡◌, ◌≢◌, ◌∙◌, ◌==◌, length, refl, sym, ap, inl, inr, Option, none, some, List, [], ◌∷◌,
  Bool-cases, arith,
}
use sxn_spv.Common.Outcome.{Outcome, Panics, ok, err, panic}
use sxn_spv.Common.Order.{bytes_ord}
use sxn_spv.Bitcoin.{Bitcoin, BlockHash}
use sxn_spv.Header
use sxn_spv.Header.{HeaderEntry, HeaderList, order, apply}
use sxn_spv.Store.{Bytes, Db, Codec, get, add_sync_headers, load_blockhashes, load_headers}
use sxn_spv.Store.Put.{get-put, get_code-write}
use sxn_spv.Store.Open.{
  Store, compatibility_bytes, verify_compatibility, compatible, store_of, read_store, open_store,
  reload_store,
}
use sxn_spv.Indexer.Chunks.{write_chunks-chunks}
use sxn_spv.Indexer.{
  SyncError, daemon_error, tip_not_equal, Round, write_chunks, add_sync_block_header, written,
  reloaded, compared, applied, ordered, downloaded, sync_headers_to_add, sync_headers,
}
use sxn_spv.Daemon.{Daemon, DaemonError, chunks, get_new_headers}

some-injective {ℓ} : {A : Type ℓ} {a b : A} → ◌≡◌ {A = Option A} (some a) (some b) → a ≡ b
some-injective h = cc

opened-injective {ℓ} :
    {A : Type ℓ} {a b : A} → ◌≡◌ {A = Option (Panics A)} (some (ok a)) (some (ok b)) → a ≡ b
opened-injective h = cc

module _ {bitcoin : Bitcoin} (codec : Codec bitcoin) where
  store_of-db :
      (db : Db) (hashes : Panics (List BlockHash)) (headers : Option (Panics (HeaderList bitcoin)))
      (store : Store bitcoin)
      → store_of codec db hashes headers ≡ some (ok store)
      → store.sync_db ≡ db
  store_of-db db (ok hashes) (some (ok headers)) store done =
      sym (ap (λ (s : Store bitcoin). s.sync_db) (opened-injective done))
  store_of-db db (ok hashes) (some (err e)) store done = elim e [ ]
  store_of-db db (ok hashes) (some panic) store done = absurd (ground (arith, done))
  store_of-db db (ok hashes) none store done = absurd (ground (arith, done))
  store_of-db db (err e) headers store done = elim e [ ]
  store_of-db db panic headers store done = absurd (ground (arith, done))

  read_store-db :
      (db : Db) (store : Store bitcoin) → read_store codec db ≡ some (ok store) → store.sync_db ≡ db
  unfolding read_store
  read_store-db db store done =
      store_of-db db (load_blockhashes codec db) (load_headers codec db) store done

  -- A round leaves the database with the rows that it wrote, or as it was: with the version that it had.
  abbrev pub SameVersion : Store bitcoin → Store bitcoin → Type 0
  SameVersion store store' = get codec store'.sync_db (86 ∷ []) ≡ get codec store.sync_db (86 ∷ [])

  -- What a round ends in has the version of a store.
  abbrev pub KeepsVersion : Store bitcoin → Round codec → Type 0
  KeepsVersion store round =
      (r : Outcome SyncError (Unit {0})) (store' : Store bitcoin)
      → round ≡ some (r, store')
      → SameVersion store store'

  ended :
      (store : Store bitcoin) (r : Outcome SyncError (Unit {0}))
      → KeepsVersion store (some (r, store))
  ended store r r' store' done =
      ap (λ (s : Store bitcoin). get codec s.sync_db (86 ∷ []))
        (sym (ap (λ (x : _ × Store bitcoin). x.1) (some-injective done)))

  written-SameVersion :
      (store : Store bitcoin) (best : BlockHash) (to_add : List (HeaderEntry bitcoin))
      → SameVersion store (written codec store best to_add)
  unfolding written add_sync_block_header
  written-SameVersion store best to_add =
      let rows = add_sync_headers codec to_add in
      let db = write_chunks codec store.sync_db (chunks (length rows) 50000 rows) in
      get-put codec db (116 ∷ []) (86 ∷ []) (codec.hash_bytes best)
      ∙ ap (λ (d : Db). get codec d (86 ∷ []))
          (write_chunks-chunks codec store.sync_db (length rows) 50000 rows (omega arith)
            (omega arith))
      ∙ get_code-write codec 86 store.sync_db to_add refl refl

  reloaded-KeepsVersion :
      (store : Store bitcoin) (m : Option (Panics (Store bitcoin)))
      → reload_store codec store ≡ m
      → KeepsVersion store (reloaded codec store m)
  unfolding reload_store
  reloaded-KeepsVersion store none read r store' done = absurd (ground (arith, done))
  reloaded-KeepsVersion store (some (ok found)) read r store' done =
      ended found (err tip_not_equal) r store' done
      ∙ ap (λ (d : Db). get codec d (86 ∷ [])) (read_store-db store.sync_db found read)
  reloaded-KeepsVersion store (some (err e)) read r store' done = elim e [ ]
  reloaded-KeepsVersion store (some panic) read r store' done = ended store panic r store' done

  compared-KeepsVersion :
      (store : Store bitcoin) (best : BlockHash) (t : Panics BlockHash)
      → KeepsVersion store (compared codec store best t)
  compared-KeepsVersion store best (ok t) = elim (Bool-cases (best == t)) [
    | inl same ↦ rw (same, compared) (ended store (ok tt))
    | inr other ↦ rw (other, compared) (reloaded-KeepsVersion store (reload_store codec store) refl)
  ]
  compared-KeepsVersion store best (err e) = elim e [ ]
  compared-KeepsVersion store best panic = ended store panic

  applied-KeepsVersion :
      (store : Store bitcoin) (best : BlockHash) (hl : Panics (HeaderList bitcoin))
      → KeepsVersion store (applied codec store best hl)
  applied-KeepsVersion store best (ok hl) =
      compared-KeepsVersion (record store { sync_headers = hl }) best (Header.tip hl)
  applied-KeepsVersion store best (err e) = elim e [ ]
  applied-KeepsVersion store best panic = ended store panic

  ordered-KeepsVersion :
      (store : Store bitcoin) (best : BlockHash) (es : Panics (List (HeaderEntry bitcoin)))
      → KeepsVersion store (ordered codec store best es)
  ordered-KeepsVersion store best (ok es) r store' done =
      let to_add = sync_headers_to_add store es in
      applied-KeepsVersion (written codec store best to_add) best (apply store.sync_headers to_add)
        r store' done
      ∙ written-SameVersion store best to_add
  ordered-KeepsVersion store best (err e) r store' done = elim e [ ]
  ordered-KeepsVersion store best panic r store' done = ended store panic r store' done

  downloaded-KeepsVersion :
      (store : Store bitcoin) (best : BlockHash)
      (new : Option (Outcome DaemonError (List bitcoin.BlockHeader)))
      → KeepsVersion store (downloaded codec store best new)
  downloaded-KeepsVersion store best none r store' done = absurd (ground (arith, done))
  downloaded-KeepsVersion store best (some (ok new)) r store' done =
      ordered-KeepsVersion store best (order store.sync_headers new) r store' done
  downloaded-KeepsVersion store best (some (err e)) r store' done =
      ended store (err (daemon_error e)) r store' done
  downloaded-KeepsVersion store best (some panic) r store' done = ended store panic r store' done

  pub sync_headers-KeepsVersion :
      (fuel : ℕ) (daemon : Daemon bitcoin) (store : Store bitcoin) (best : BlockHash)
      → KeepsVersion store (sync_headers codec fuel daemon store best)
  unfolding sync_headers
  sync_headers-KeepsVersion fuel daemon store best =
      downloaded-KeepsVersion store best (get_new_headers daemon fuel store.sync_headers best)

  -- A database with this version is opened as it is, and one with another version is not.
  pub open_store-versioned :
      (db : Db)
      → get codec db (86 ∷ []) ≡ some compatibility_bytes
      → open_store codec db ≡ read_store codec db
  unfolding open_store verify_compatibility
  open_store-versioned db versioned = rw (versioned, compatible) refl

  pub open_store-other :
      (db : Db) (version : Bytes)
      → get codec db (86 ∷ []) ≡ some version
      → version ≢ compatibility_bytes
      → open_store codec db ≡ some panic
  unfolding open_store verify_compatibility
  open_store-other db version versioned other =
      elim (Bool-cases (bytes_ord.eq version compatibility_bytes)) [
        | inl same ↦ absurd (other ((bytes_ord.eq_iff version compatibility_bytes).0 same))
        | inr differ ↦ rw (versioned, compatible, differ) refl
      ]

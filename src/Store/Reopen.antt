-- ===== src/Store/Reopen.antt =====
-- What is read back after the rows of new headers were written: a stop before the tip was written loses
-- nothing.
use sxn_spv.Common.{ℕ, ◌≡◌, refl, ◌∙◌, some, List, [], ◌∷◌, get_elem?}
use sxn_spv.Common.Outcome.{ok}
use sxn_spv.Common.Classes.{nat_eq}
use sxn_spv.Common.Order.{bytes_ord}
use sxn_spv.Bitcoin.{Bitcoin}
use sxn_spv.Header.{HeaderEntry, HeaderList}
use sxn_spv.Header.Chain.{NoCollision}
use sxn_spv.Header.Apply.{IsValid}
use sxn_spv.Header.Rebuild.{new_rebuilds}
use sxn_spv.Store.{Db, Codec, get, write, add_sync_headers, load_headers}
use sxn_spv.Store.Load.{load_sync_blockheaders_lem}
use sxn_spv.Store.Put.{IsReadable, write-IsReadable, Agree, write-keeps, get_code-write}

module _ {bitcoin : Bitcoin} (codec : Codec bitcoin) where
  open bitcoin use {BlockHeader}
  open codec use {hash_bytes, header_bytes}

  -- A database that holds a list: every header of it under its hash, and its tip.
  pub record IsStored (db : Db) (hl : HeaderList bitcoin) : Type 0 where
    pub readable : IsReadable codec db
    pub held :
        (i : ℕ) (e : HeaderEntry bitcoin)
        → get_elem? hl.headers i ≡ some e
        → get codec db (98 ∷ hash_bytes e.hash) ≡ some (header_bytes e.header)
    pub tip : get codec db (116 ∷ []) ≡ some (hash_bytes hl.tip)

  -- No new entry has the hash of an entry of the list and another header.
  abbrev pub Compatible : HeaderList bitcoin → List (HeaderEntry bitcoin) → Type 0
  Compatible hl new =
      (i : ℕ) (e : HeaderEntry bitcoin)
      → get_elem? hl.headers i ≡ some e
      → Agree codec e.hash e.header new

  pub load_headers_lem :
      (db : Db) (hl : HeaderList bitcoin)
      → IsValid hl
      → NoCollision hl.headers
      → IsStored db hl
      → (hl' : HeaderList bitcoin) × (load_headers codec db ≡ some (ok hl'))
        × (hl'.headers ≡ hl.headers)
        × (hl'.tip ≡ hl.tip)
        × IsValid hl'
  unfolding load_headers
  load_headers_lem db hl v free s =
      let (m, loaded, read) =
        load_sync_blockheaders_lem codec db s.readable.sorted s.readable.rows in
      let (hl', done, same, at_tip, v') =
        new_rebuilds bitcoin hl m v free (λ i e at. read e.hash e.header (s.held i e at)) in
      (hl', rw (s.tip, codec.hash_parsed hl.tip, loaded, load_headers) done, same, at_tip, v')

  write-IsStored :
      (db : Db) (hl : HeaderList bitcoin) (new : List (HeaderEntry bitcoin))
      → Compatible hl new
      → IsStored db hl
      → IsStored (write codec db (add_sync_headers codec new)) hl
  write-IsStored db hl new agree s = record {
    readable = write-IsReadable codec db new s.readable;
    held = λ i e at. write-keeps codec db new e.hash e.header (agree i e at) (s.held i e at);
    tip = get_code-write codec 116 db new refl refl ∙ s.tip;
  }

  -- If the program stops after the rows of new headers were written and before the tip was, the list that
  -- is read back is the old one: the same headers, the same tip, and valid.
  pub load_headers-write :
      (db : Db) (hl : HeaderList bitcoin) (new : List (HeaderEntry bitcoin))
      → IsValid hl
      → NoCollision hl.headers
      → IsStored db hl
      → Compatible hl new
      → (hl' : HeaderList bitcoin) × (load_headers codec
            (write codec db (add_sync_headers codec new))
          ≡ some (ok hl'))
        × (hl'.headers ≡ hl.headers)
        × (hl'.tip ≡ hl.tip)
        × IsValid hl'
  load_headers-write db hl new v free s agree =
      load_headers_lem (write codec db (add_sync_headers codec new)) hl v free
        (write-IsStored db hl new agree s)

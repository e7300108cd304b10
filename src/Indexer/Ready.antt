-- ===== src/Indexer/Ready.antt =====
-- A database in which every block that is marked as done has its header, and what is read of it.
use sxn_spv.Common.{
  zero, suc, get_elem?, ==-self, ℕ, ◌≡◌, ◌≢◌, refl, sym, ap, ◌∙◌, inl, inr, true, false, some, List,
  [], ◌∷◌, ◌==◌, ==_iff, Bool-cases, All, arith,
}
use mathlib.Core.Path.{subst}
use sxn_spv.Common.Outcome.{ok}
use sxn_spv.Common.Order.{bytes_ord}
use sxn_spv.Common.BTreeMap
use sxn_spv.Bitcoin.{Bitcoin, BlockHash}
use sxn_spv.Header.{HeaderEntry}
use sxn_spv.Store.{
  Bytes, DbRow, Db, Codec, put, get, write, add_sync_headers, iter_scan, collect_hashes,
  load_blockhashes, starts_with,
}
use sxn_spv.Store.Scan.{Rows, get-iter_scan, iter_scan-Rows}
use sxn_spv.Store.Load.{key_hash_lem, hash_bytes-injective}
use sxn_spv.Store.Put.{
  get-put, IsReadable, insert-Rows, put-IsReadable, put_header, put_header-IsReadable, write_cons,
  write_nil, get-put_header, put_header-keeps,
}
use sxn_spv.Indexer.{holds}
use sxn_spv.Indexer.Chains.{Injective, IsGood}

module _ {bitcoin : Bitcoin} (codec : Codec bitcoin) where
  open codec use {hash_bytes, header_bytes}

  -- The row that marks a block.
  abbrev pub IsDoneRow : Bytes → Bytes → Type 0
  IsDoneRow k v = (h : BlockHash) × (k ≡ 68 ∷ hash_bytes h)

  put-Done :
      (db : Db) (key v : Bytes)
      → (starts_with (68 ∷ []) key ≡ true → IsDoneRow key v)
      → Rows codec IsDoneRow 68 db
      → Rows codec IsDoneRow 68 (put codec db key v)
  unfolding put
  put-Done db key v new rows = insert-Rows codec IsDoneRow 68 key (codec.seal_data v) db new rows

  -- Every collected hash is that of a row.
  collect_hashes_lem :
      (rows : List DbRow)
      → All (λ r. IsDoneRow r.0 r.1) rows
      → (hs : List BlockHash) × (collect_hashes codec rows ≡ ok hs)
        × ((h : BlockHash)
            → holds h hs ≡ true
            → (v : Bytes) × (BTreeMap.get (68 ∷ hash_bytes h) rows ≡ some v))
  unfolding collect_hashes BTreeMap.get
  collect_hashes_lem [] a = ([], refl, λ h found. absurd (ground arith))
  collect_hashes_lem ((k, v) ∷ rows) a =
      let (h, key) = a.0 in
      let (hs, done, each) = collect_hashes_lem rows a.1 in
      (
        h ∷ hs,
        rw (key, key_hash_lem codec 68 h, codec.hash_parsed h, done) refl,
        λ g found. elim (Bool-cases (bytes_ord.eq k (68 ∷ hash_bytes g))) [
          | inl same ↦ (v, rw same refl)
          | inr other ↦
              let differ : h ≢ g = λ eq. ground (
                arith,
                other,
                (bytes_ord.eq_iff k (68 ∷ hash_bytes g)).1
                    (key ∙ ap (λ (z : BlockHash). 68 ∷ hash_bytes z) eq),
              ) in
              let (w, at) = each g (ground (arith, found, differ, ==_iff h g)) in (w, rw other at)
        ],
      )

  module _ (IsSeen : bitcoin.BlockHeader → Type 0) where
    open bitcoin use {BlockHeader, block_hash}

    -- The header with this hash stands in the database.
    abbrev pub IsKept : Db → BlockHash → Type 0
    IsKept db h =
        (x : BlockHeader) × IsSeen x
        × (block_hash x ≡ h)
        × (get codec db (98 ∷ hash_bytes h) ≡ some (header_bytes x))

    pub record IsReady (db : Db) : Type 0 where
      pub readable : IsReadable codec db
      pub done : Rows codec IsDoneRow 68 db
      pub marked :
          (h : BlockHash) (v : Bytes) → get codec db (68 ∷ hash_bytes h) ≡ some v → IsKept db h

    -- The hashes that are read back are those of headers in the database.
    pub load_blockhashes_lem :
        (db : Db)
        → IsReady db
        → (hs : List BlockHash) × (load_blockhashes codec db ≡ ok hs)
          × ((h : BlockHash) → holds h hs ≡ true → IsKept db h)
    unfolding load_blockhashes
    load_blockhashes_lem db r =
        let (hs, read, each) =
          collect_hashes_lem (iter_scan codec db (68 ∷ []))
            (iter_scan-Rows codec IsDoneRow 68 db r.done) in
        (
          hs,
          read,
          λ h found.
              let (v, at) = each h found in
              r.marked h v (sym (get-iter_scan codec 68 (hash_bytes h) db r.readable.sorted) ∙ at),
        )

    -- The tip does not touch the rows of blocks.
    pub put_tip-IsReady : (db : Db) (v : Bytes) → IsReady db → IsReady (put codec db (116 ∷ []) v)
    put_tip-IsReady db v r = record {
      readable = put-IsReadable codec db (116 ∷ []) v (λ h. absurd (ground arith)) r.readable;
      done = put-Done db (116 ∷ []) v (λ h. absurd (ground arith)) r.done;
      marked = λ h w at.
          let (x, seen, hash, held) =
            r.marked h w (sym (get-put codec db (116 ∷ []) (68 ∷ hash_bytes h) v) ∙ at) in
          (x, seen, hash, get-put codec db (116 ∷ []) (98 ∷ hash_bytes h) v ∙ held);
    }

    pub put_tip-IsKept :
        (db : Db) (v : Bytes) (h : BlockHash) → IsKept db h → IsKept (put codec db (116 ∷ []) v) h
    put_tip-IsKept db v h (x, seen, hash, held) =
        (x, seen, hash, get-put codec db (116 ∷ []) (98 ∷ hash_bytes h) v ∙ held)

    module _ (injective : Injective bitcoin IsSeen) where
      pub good-agrees :
          (e : HeaderEntry bitcoin) (x : BlockHeader) (h : BlockHash)
          → IsGood IsSeen e
          → IsSeen x
          → block_hash x ≡ h
          → e.hash ≡ h
          → e.header ≡ x
      good-agrees e x h good seen hash same =
          injective e.header x good.0 seen (sym good.1 ∙ same ∙ sym hash)

      put_header-IsKept :
          (db : Db) (e : HeaderEntry bitcoin) (h : BlockHash)
          → IsGood IsSeen e
          → IsKept db h
          → IsKept (put_header codec db e) h
      put_header-IsKept db e h good (x, seen, hash, held) =
          (x, seen, hash, put_header-keeps codec db e h x (good-agrees e x h good seen hash) held)

      -- Another block is marked as it was.
      put_header-marked :
          (db : Db) (e : HeaderEntry bitcoin) (h : BlockHash)
          → (e.hash == h) ≡ false
          → get codec (put_header codec db e) (68 ∷ hash_bytes h) ≡ get codec db (68 ∷ hash_bytes h)
      put_header-marked db e h differ =
          let first = put codec db (98 ∷ hash_bytes e.hash) (header_bytes e.header) in
          elim (Bool-cases (bytes_ord.eq (68 ∷ hash_bytes e.hash) (68 ∷ hash_bytes h))) [
            | inl key ↦
                let keys = (bytes_ord.eq_iff (68 ∷ hash_bytes e.hash) (68 ∷ hash_bytes h)).0 key in
                let eq : e.hash ≡ h = hash_bytes-injective codec e.hash h (cc (keys)) in
                absurd (ground (arith, differ, (==_iff e.hash h).1 eq))
            | inr keys ↦
                get-put codec first (68 ∷ hash_bytes e.hash) (68 ∷ hash_bytes h) []
                ∙ rw keys (
                    get-put codec db (98 ∷ hash_bytes e.hash) (68 ∷ hash_bytes h)
                      (header_bytes e.header))
          ]

      put_header-IsReady :
          (db : Db) (e : HeaderEntry bitcoin)
          → IsGood IsSeen e
          → IsReady db
          → IsReady (put_header codec db e)
      put_header-IsReady db e good r = record {
        readable = put_header-IsReadable codec db e r.readable;
        done =
            put-Done (put codec db (98 ∷ hash_bytes e.hash) (header_bytes e.header))
              (68 ∷ hash_bytes e.hash) [] (λ h. (e.hash, refl))
              (put-Done db (98 ∷ hash_bytes e.hash) (header_bytes e.header)
                (λ h. absurd (ground arith)) r.done);
        marked = λ h v at. elim (Bool-cases (e.hash == h)) [
          | inl same ↦ (
            e.header,
            good.0,
            sym good.1 ∙ (==_iff e.hash h).0 same,
            get-put_header codec db e h ∙ rw same refl,
          )
          | inr other ↦
              put_header-IsKept db e h good
                (r.marked h v (sym (put_header-marked db e h other) ∙ at))
        ];
      }

      pub write-IsReady :
          (db : Db) (es : List (HeaderEntry bitcoin))
          → All (IsGood IsSeen) es
          → IsReady db
          → IsReady (write codec db (add_sync_headers codec es))
      write-IsReady db [] a r = subst IsReady (sym (write_nil codec db)) r
      write-IsReady db (e ∷ es) a r =
          subst IsReady (sym (write_cons codec db e es))
            (write-IsReady (put_header codec db e) es a.1 (put_header-IsReady db e a.0 r))

      pub write-IsKept :
          (db : Db) (es : List (HeaderEntry bitcoin)) (h : BlockHash)
          → All (IsGood IsSeen) es
          → IsKept db h
          → IsKept (write codec db (add_sync_headers codec es)) h
      write-IsKept db [] h a k = subst (λ (d : Db). IsKept d h) (sym (write_nil codec db)) k
      write-IsKept db (e ∷ es) h a k =
          subst (λ (d : Db). IsKept d h) (sym (write_cons codec db e es))
            (write-IsKept (put_header codec db e) es h a.1 (put_header-IsKept db e h a.0 k))

      -- What was written is there.
      pub write-adds :
          (db : Db) (es : List (HeaderEntry bitcoin)) (k : ℕ) (e : HeaderEntry bitcoin)
          → All (IsGood IsSeen) es
          → get_elem? es k ≡ some e
          → IsKept (write codec db (add_sync_headers codec es)) e.hash
      write-adds db [] k e a at = absurd (ground arith)
      write-adds db (f ∷ es) zero e a at =
          let here : IsKept (put_header codec db f) f.hash = (
            f.header,
            a.0.0,
            sym a.0.1,
            get-put_header codec db f f.hash ∙ rw (==-self f.hash) refl,
          ) in
          let all = write-IsKept (put_header codec db f) es f.hash a.1 here in
          let same : f ≡ e = cc (at) in
          subst
            (λ (x : HeaderEntry bitcoin).
              IsKept (write codec db (add_sync_headers codec (f ∷ es))) x.hash)
            same (subst (λ (d : Db). IsKept d f.hash) (sym (write_cons codec db f es)) all)
      write-adds db (f ∷ es) (suc k) e a at =
          subst (λ (d : Db). IsKept d e.hash) (sym (write_cons codec db f es))
            (write-adds (put_header codec db f) es k e a.1 at)

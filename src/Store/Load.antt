-- ===== src/Store/Load.antt =====
-- The map of headers that is read from a database whose rows are those of headers.
use sxn_spv.Common.{
  ℕ, take, take_all, leb, ◌≡◌, ◌≢◌, refl, sym, ap, ◌∙◌, true, inl, inr, none, some, List, [], ◌∷◌,
  ==_iff, length, Bool-cases, All, arith,
}
use mathlib.Core.Path.{subst}
use sxn_spv.Common.Outcome.{ok}
use sxn_spv.Common.Classes.{nat_eq}
use sxn_spv.Common.Order.{bytes_ord}
use sxn_spv.Common.HashMap
use sxn_spv.Common.HashMap.{HashMap, get-insert}
use sxn_spv.Common.BTreeMap
use sxn_spv.Common.BTreeMap.{IsSorted, get-Above}
use sxn_spv.Bitcoin.{Bitcoin, BlockHash}
use sxn_spv.Store.{
  Bytes, DbRow, Db, Codec, get, iter_scan, key_hash, collect_headers, load_sync_blockheaders,
}
use sxn_spv.Store.Scan.{iter_scan-IsSorted, get-iter_scan, Rows, iter_scan-Rows}

module _ {bitcoin : Bitcoin} (codec : Codec bitcoin) where
  open bitcoin use {BlockHeader}
  open codec use {hash_bytes, header_bytes}

  -- The row of a header under a hash.
  abbrev pub IsHeaderRow : Bytes → Bytes → Type 0
  IsHeaderRow k v =
      (h : BlockHash) × (x : BlockHeader) × (k ≡ 98 ∷ hash_bytes h) × (v ≡ header_bytes x)

  pub hash_bytes-injective : (g h : BlockHash) → hash_bytes g ≡ hash_bytes h → g ≡ h
  hash_bytes-injective g h same =
      cc (codec.hash_parsed g, codec.hash_parsed h, ap codec.parse_hash same)

  header_bytes-injective : (x y : BlockHeader) → header_bytes x ≡ header_bytes y → x ≡ y
  header_bytes-injective x y same =
      cc (codec.header_parsed x, codec.header_parsed y, ap codec.parse_header same)

  -- What was collected: the headers of the rows, and what was there for the other hashes.
  record Collected (rows : List DbRow) (m m' : HashMap BlockHash BlockHeader) : Type 0 where
    pub read :
        (h : BlockHash) (x : BlockHeader)
        → BTreeMap.get (98 ∷ hash_bytes h) rows ≡ some (header_bytes x)
        → HashMap.get h m' ≡ some x
    pub kept :
        (h : BlockHash) (x : BlockHeader)
        → BTreeMap.get (98 ∷ hash_bytes h) rows ≡ none
        → HashMap.get h m ≡ some x
        → HashMap.get h m' ≡ some x

  pub key_hash_lem : (c : ℕ) (h : BlockHash) → key_hash codec (c ∷ hash_bytes h) ≡ ok (hash_bytes h)
  key_hash_lem c h =
      let all : take 32 (hash_bytes h) ≡ hash_bytes h =
        take_all 32 (hash_bytes h) (omega (arith, codec.hash_length h)) in
      let full : leb 32 (length (hash_bytes h)) ≡ true = ground (arith, codec.hash_length h) in
      rw (full, all) refl

  collect_row :
      (h : BlockHash) (x : BlockHeader) (rows : List DbRow) (m : HashMap BlockHash BlockHeader)
      → collect_headers codec ((98 ∷ hash_bytes h, header_bytes x) ∷ rows) m
        ≡ collect_headers codec rows (HashMap.insert h x m)
  unfolding collect_headers
  collect_row h x rows m = rw (key_hash_lem 98 h, codec.hash_parsed h, codec.header_parsed x) refl

  Collected-row :
      (h : BlockHash) (x : BlockHeader) (rows : List DbRow) (m m' : HashMap BlockHash BlockHeader)
      → IsSorted ((98 ∷ hash_bytes h, header_bytes x) ∷ rows)
      → Collected rows (HashMap.insert h x m) m'
      → Collected ((98 ∷ hash_bytes h, header_bytes x) ∷ rows) m m'
  unfolding BTreeMap.get
  Collected-row h x rows m m' s c = record {
    read = λ g y at. elim (Bool-cases (bytes_ord.eq (98 ∷ hash_bytes h) (98 ∷ hash_bytes g))) [
      | inl same ↦
          let keys : 98 ∷ hash_bytes h ≡ 98 ∷ hash_bytes g =
            (bytes_ord.eq_iff (98 ∷ hash_bytes h) (98 ∷ hash_bytes g)).0 same in
          let hashes : h ≡ g = hash_bytes-injective h g (cc (keys)) in
          let values : header_bytes x ≡ header_bytes y = ground (arith, at, same) in
          let past = get-Above (98 ∷ hash_bytes h) rows s.0 in
          let old : HashMap.get h (HashMap.insert h x m) ≡ some x =
            ground (arith, get-insert h h x m, ==_iff h h) in
          cc (c.kept h x past old, hashes, header_bytes-injective x y values)
      | inr differ ↦ c.read g y (ground (arith, at, differ))
    ];
    kept = λ g y at old. elim (Bool-cases (bytes_ord.eq (98 ∷ hash_bytes h) (98 ∷ hash_bytes g))) [
      | inl same ↦ absurd (ground (arith, at, same))
      | inr differ ↦
          let other : h ≢ g = λ eq. ground (
            arith,
            differ,
            (bytes_ord.eq_iff (98 ∷ hash_bytes h) (98 ∷ hash_bytes g)).1
                (ap (λ (z : BlockHash). 98 ∷ hash_bytes z) eq),
          ) in
          c.kept g y (ground (arith, at, differ))
            (ground (arith, get-insert h g x m, ==_iff h g, old, other))
    ];
  }

  get-nil : (k v : Bytes) → BTreeMap.get k [] ≢ some v
  unfolding BTreeMap.get
  get-nil k v at = ground arith

  abbrev Result : List DbRow → HashMap BlockHash BlockHeader → Type 0
  Result rows m =
      (m' : HashMap BlockHash BlockHeader) × (collect_headers codec rows m ≡ ok m')
      × Collected rows m m'

  collect_cons :
      (h : BlockHash) (x : BlockHeader) (rows : List DbRow) (m : HashMap BlockHash BlockHeader)
      → IsSorted ((98 ∷ hash_bytes h, header_bytes x) ∷ rows)
      → Result rows (HashMap.insert h x m)
      → Result ((98 ∷ hash_bytes h, header_bytes x) ∷ rows) m
  collect_cons h x rows m s (m', done, c) =
      (m', collect_row h x rows m ∙ done, Collected-row h x rows m m' s c)

  collect_headers_lem :
      (rows : List DbRow) (m : HashMap BlockHash BlockHeader)
      → IsSorted rows
      → All (λ r. IsHeaderRow r.0 r.1) rows
      → Result rows m
  unfolding collect_headers
  collect_headers_lem [] m s a =
      (m, refl, record { read = λ h x at. absurd (get-nil _ _ at); kept = λ h x at old. old })
  collect_headers_lem ((k, v) ∷ rows) m s a =
      let (h, x, key, value) = a.0 in
      let row : (k, v) ≡ (98 ∷ hash_bytes h, header_bytes x) = cc (key, value) in
      subst (λ (r : DbRow). Result (r ∷ rows) m) (sym row)
        (collect_cons h x rows m (subst (λ (r : DbRow). IsSorted (r ∷ rows)) row s)
          (collect_headers_lem rows (HashMap.insert h x m) s.1 a.1))

  -- From a sorted database whose rows under `b` are those of headers, a map is loaded in which every stored
  -- header stands under its hash.
  pub load_sync_blockheaders_lem :
      (db : Db)
      → IsSorted db
      → Rows codec IsHeaderRow 98 db
      → (m : HashMap BlockHash BlockHeader) × (load_sync_blockheaders codec db ≡ ok m)
        × ((h : BlockHash) (x : BlockHeader)
            → get codec db (98 ∷ hash_bytes h) ≡ some (header_bytes x)
            → HashMap.get h m ≡ some x)
  unfolding load_sync_blockheaders
  load_sync_blockheaders_lem db s rows =
      let (m, done, c) =
        collect_headers_lem (iter_scan codec db (98 ∷ [])) [] (iter_scan-IsSorted codec 98 db s)
          (iter_scan-Rows codec IsHeaderRow 98 db rows) in
      (m, done, λ h x at. c.read h x (get-iter_scan codec 98 (hash_bytes h) db s ∙ at))

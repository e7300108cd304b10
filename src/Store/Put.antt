-- ===== src/Store/Put.antt =====
-- What stands under a key after one row was put, after the two rows of a header, and after a batch of
-- headers; and that the rows of headers stay readable.
use sxn_spv.Common.{
  ℕ, ◌≡◌, refl, sym, ap, ◌∙◌, true, false, inl, inr, some, List, [], ◌∷◌, ◌==◌, ==_iff, Bool-cases,
  All, if◌then◌else◌, arith,
}
use mathlib.Core.Path.{subst}
use sxn_spv.Common.Classes.{nat_eq}
use sxn_spv.Common.Order.{bytes_ord}
use sxn_spv.Common.BTreeMap
use sxn_spv.Common.BTreeMap.{IsSorted, insert-IsSorted, get-insert}
use sxn_spv.Bitcoin.{Bitcoin, BlockHash}
use sxn_spv.Header.{HeaderEntry}
use sxn_spv.Store.{
  Bytes, Db, Codec, put, get, write, starts_with, first_sync_header, new_done, add_sync_headers,
}
use sxn_spv.Store.Scan.{Rows}
use sxn_spv.Store.Load.{IsHeaderRow, hash_bytes-injective}

module _ {bitcoin : Bitcoin} (codec : Codec bitcoin) where
  open bitcoin use {BlockHeader}
  open codec use {hash_bytes, header_bytes}

  pub get-put :
      (db : Db) (key q value : Bytes)
      → get codec (put codec db key value) q
        ≡ (if bytes_ord.eq key q then some value else get codec db q)
  unfolding get put
  get-put db key q value =
      ground (arith, get-insert key q (codec.seal_data value) db, codec.unsealed value)

  -- A database that can be read: in order, with the rows of headers under `b`.
  pub record IsReadable (db : Db) : Type 0 where
    pub sorted : IsSorted db
    pub rows : Rows codec (IsHeaderRow codec) 98 db

  pub insert-Rows {κ} :
      (P : Bytes → Bytes → Type κ) (c : ℕ) (key v : Bytes) (db : Db)
      → (starts_with (c ∷ []) key ≡ true → P key (codec.unseal_data v))
      → Rows codec P c db
      → Rows codec P c (BTreeMap.insert key v db)
  unfolding BTreeMap.insert
  insert-Rows P c key v [] new rows = (new, tt)
  insert-Rows P c key v ((j, w) ∷ db) new rows = elim (Bool-cases (bytes_ord.eq j key)) [
    | inl same ↦
        let here : j ≡ key = (bytes_ord.eq_iff j key).0 same in
        rw same (
          λ begins.
              subst (λ (k : Bytes). P k (codec.unseal_data v)) (sym here)
                (new (subst (λ (k : Bytes). starts_with (c ∷ []) k ≡ true) here begins)),
          rows.1,
        )
    | inr other ↦ elim (Bool-cases (bytes_ord.lt key j)) [
      | inl below ↦ rw (other, below) (new, (rows.0, rows.1))
      | inr above ↦ rw (other, above) (rows.0, insert-Rows P c key v db new rows.1)
    ]
  ]

  pub put-IsReadable :
      (db : Db) (key v : Bytes)
      → (starts_with (98 ∷ []) key ≡ true → IsHeaderRow codec key v)
      → IsReadable db
      → IsReadable (put codec db key v)
  unfolding put
  put-IsReadable db key v new r = record {
    sorted = insert-IsSorted key (codec.seal_data v) db r.sorted;
    rows =
        insert-Rows (IsHeaderRow codec) 98 key (codec.seal_data v) db
          (λ here. subst (IsHeaderRow codec key) (sym (codec.unsealed v)) (new here)) r.rows;
  }

  -- The database after the two rows of a header.
  abbrev pub put_header : Db → HeaderEntry bitcoin → Db
  put_header db e =
      put codec (put codec db (98 ∷ hash_bytes e.hash) (header_bytes e.header))
        (68 ∷ hash_bytes e.hash) []

  pub write_cons :
      (db : Db) (e : HeaderEntry bitcoin) (es : List (HeaderEntry bitcoin))
      → write codec db (add_sync_headers codec (e ∷ es))
        ≡ write codec (put_header db e) (add_sync_headers codec es)
  unfolding write add_sync_headers first_sync_header new_done
  write_cons db e es = refl

  pub write_nil : (db : Db) → write codec db (add_sync_headers codec []) ≡ db
  unfolding write add_sync_headers
  write_nil db = refl

  pub put_header-IsReadable :
      (db : Db) (e : HeaderEntry bitcoin) → IsReadable db → IsReadable (put_header db e)
  put_header-IsReadable db e r =
      put-IsReadable (put codec db (98 ∷ hash_bytes e.hash) (header_bytes e.header))
        (68 ∷ hash_bytes e.hash) [] (λ h. absurd (ground arith))
        (put-IsReadable db (98 ∷ hash_bytes e.hash) (header_bytes e.header)
          (λ h. (e.hash, e.header, refl, refl)) r)

  pub write-IsReadable :
      (db : Db) (es : List (HeaderEntry bitcoin))
      → IsReadable db
      → IsReadable (write codec db (add_sync_headers codec es))
  write-IsReadable db [] r = subst IsReadable (sym (write_nil db)) r
  write-IsReadable db (e ∷ es) r =
      subst IsReadable (sym (write_cons db e es))
        (write-IsReadable (put_header db e) es (put_header-IsReadable db e r))

  pub get-put_header :
      (db : Db) (e : HeaderEntry bitcoin) (h : BlockHash)
      → get codec (put_header db e) (98 ∷ hash_bytes h)
        ≡ (if e.hash == h then some (header_bytes e.header) else get codec db (98 ∷ hash_bytes h))
  get-put_header db e h =
      let first = put codec db (98 ∷ hash_bytes e.hash) (header_bytes e.header) in
      let marked = get-put first (68 ∷ hash_bytes e.hash) (98 ∷ hash_bytes h) [] in
      let put_there =
        get-put db (98 ∷ hash_bytes e.hash) (98 ∷ hash_bytes h) (header_bytes e.header) in
      let law = bytes_ord.eq_iff (98 ∷ hash_bytes e.hash) (98 ∷ hash_bytes h) in
      elim (Bool-cases (e.hash == h)) [
        | inl same ↦
            let key : 98 ∷ hash_bytes e.hash ≡ 98 ∷ hash_bytes h =
              ap (λ (z : BlockHash). 98 ∷ hash_bytes z) ((==_iff e.hash h).0 same) in
            rw same (marked ∙ put_there ∙ rw (law.1 key) refl)
        | inr differ ↦
            elim (Bool-cases (bytes_ord.eq (98 ∷ hash_bytes e.hash) (98 ∷ hash_bytes h))) [
              | inl key ↦
                  let eq : e.hash ≡ h = hash_bytes-injective codec e.hash h (cc (law.0 key)) in
                  absurd (ground (arith, differ, (==_iff e.hash h).1 eq))
              | inr keys ↦ rw differ (marked ∙ put_there ∙ rw keys refl)
            ]
      ]

  -- Every entry with this hash has this header.
  abbrev pub Agree : BlockHash → BlockHeader → List (HeaderEntry bitcoin) → Type 0
  Agree h x = All (λ e. e.hash ≡ h → e.header ≡ x)

  pub put_header-keeps :
      (db : Db) (e : HeaderEntry bitcoin) (h : BlockHash) (x : BlockHeader)
      → (e.hash ≡ h → e.header ≡ x)
      → get codec db (98 ∷ hash_bytes h) ≡ some (header_bytes x)
      → get codec (put_header db e) (98 ∷ hash_bytes h) ≡ some (header_bytes x)
  put_header-keeps db e h x agree at = elim (Bool-cases (e.hash == h)) [
    | inl same ↦
        get-put_header db e h
        ∙ rw same
            (ap (λ (y : BlockHeader). some (header_bytes y)) (agree ((==_iff e.hash h).0 same)))
    | inr differ ↦ get-put_header db e h ∙ rw differ at
  ]

  pub write-keeps :
      (db : Db) (es : List (HeaderEntry bitcoin)) (h : BlockHash) (x : BlockHeader)
      → Agree h x es
      → get codec db (98 ∷ hash_bytes h) ≡ some (header_bytes x)
      → get codec (write codec db (add_sync_headers codec es)) (98 ∷ hash_bytes h)
        ≡ some (header_bytes x)
  write-keeps db [] h x agree at =
      subst (λ (d : Db). get codec d (98 ∷ hash_bytes h) ≡ some (header_bytes x))
        (sym (write_nil db)) at
  write-keeps db (e ∷ es) h x agree at =
      subst (λ (d : Db). get codec d (98 ∷ hash_bytes h) ≡ some (header_bytes x))
        (sym (write_cons db e es))
        (write-keeps (put_header db e) es h x agree.1 (put_header-keeps db e h x agree.0 at))

  -- The rows of headers leave the row of any other code.
  get_code-put_header :
      (c : ℕ) (db : Db) (e : HeaderEntry bitcoin)
      → (98 == c) ≡ false
      → (68 == c) ≡ false
      → get codec (put_header db e) (c ∷ []) ≡ get codec db (c ∷ [])
  get_code-put_header c db e header mark =
      let first = put codec db (98 ∷ hash_bytes e.hash) (header_bytes e.header) in
      ground (
        arith,
        header,
        mark,
        get-put first (68 ∷ hash_bytes e.hash) (c ∷ []) [],
        get-put db (98 ∷ hash_bytes e.hash) (c ∷ []) (header_bytes e.header),
      )

  pub get_code-write :
      (c : ℕ) (db : Db) (es : List (HeaderEntry bitcoin))
      → (98 == c) ≡ false
      → (68 == c) ≡ false
      → get codec (write codec db (add_sync_headers codec es)) (c ∷ []) ≡ get codec db (c ∷ [])
  get_code-write c db [] header mark = ap (λ (d : Db). get codec d (c ∷ [])) (write_nil db)
  get_code-write c db (e ∷ es) header mark =
      ap (λ (d : Db). get codec d (c ∷ [])) (write_cons db e es)
      ∙ get_code-write c (put_header db e) es header mark
      ∙ get_code-put_header c db e header mark

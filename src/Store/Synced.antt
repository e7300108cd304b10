-- ===== src/Store/Synced.antt =====
-- What is read back after a round of synchronisation: `add_sync_block_header` of src/index.rs has written
-- the rows of the new headers, and `sync_headers` the new tip.
use sxn_spv.Common.{
  ℕ, zero, suc, ◌≡◌, ◌⊎◌, refl, sym, ◌∙◌, inl, inr, some, List, [], ◌∷◌, ==-self, get_elem?, arith,
}
use mathlib.Core.Path.{subst}
use sxn_spv.Common.Outcome.{ok}
use sxn_spv.Bitcoin.{Bitcoin, BlockHash}
use sxn_spv.Header.{HeaderEntry, HeaderList}
use sxn_spv.Header.Chain.{NoCollision}
use sxn_spv.Header.Apply.{IsValid}
use sxn_spv.Store.{Db, Codec, put, get, write, add_sync_headers, load_headers}
use sxn_spv.Store.Put.{
  get-put, put-IsReadable, put_header, write_cons, get-put_header, Agree, write-keeps,
  write-IsReadable,
}
use sxn_spv.Store.Reopen.{IsStored, Compatible, load_headers_lem}

-- The database after a round: `write` of the new rows, then `put_sync` of the tip.
abbrev pub synced :
    {bitcoin : Bitcoin} → Codec bitcoin → Db → List (HeaderEntry bitcoin) → BlockHash → Db
synced codec db new tip =
    put codec (write codec db (add_sync_headers codec new)) (116 ∷ []) (codec.hash_bytes tip)

module _ {bitcoin : Bitcoin} (codec : Codec bitcoin) where
  open codec use {hash_bytes, header_bytes}

  write-holds :
      (db : Db) (es : List (HeaderEntry bitcoin)) (k : ℕ) (e : HeaderEntry bitcoin)
      → Agree codec e.hash e.header es
      → get_elem? es k ≡ some e
      → get codec (write codec db (add_sync_headers codec es)) (98 ∷ hash_bytes e.hash)
        ≡ some (header_bytes e.header)
  write-holds db [] k e agree at = absurd (ground arith)
  write-holds db (f ∷ es) zero e agree at =
      let same : f ≡ e = cc in
      let here : get codec (put_header codec db f) (98 ∷ hash_bytes e.hash)
          ≡ some (header_bytes e.header) =
        subst
          (λ (x : HeaderEntry bitcoin).
            get codec (put_header codec db f) (98 ∷ hash_bytes x.hash)
            ≡ some (header_bytes x.header))
          same (get-put_header codec db f f.hash ∙ rw (==-self f.hash) refl) in
      subst (λ (d : Db). get codec d (98 ∷ hash_bytes e.hash) ≡ some (header_bytes e.header))
        (sym (write_cons codec db f es))
        (write-keeps codec (put_header codec db f) es e.hash e.header agree.1 here)
  write-holds db (f ∷ es) (suc k) e agree at =
      subst (λ (d : Db). get codec d (98 ∷ hash_bytes e.hash) ≡ some (header_bytes e.header))
        (sym (write_cons codec db f es)) (write-holds (put_header codec db f) es k e agree.1 at)

  -- Every entry of the new list is one of the old list or one of those that were added.
  abbrev pub Covers : HeaderList bitcoin → List (HeaderEntry bitcoin) → HeaderList bitcoin → Type 0
  Covers hl new hl' =
      (i : ℕ) (e : HeaderEntry bitcoin)
      → get_elem? hl'.headers i ≡ some e
      → ((j : ℕ) × (get_elem? hl.headers j ≡ some e)) ⊎ ((k : ℕ) × (get_elem? new k ≡ some e))

  synced-IsStored :
      (db : Db) (hl hl' : HeaderList bitcoin) (new : List (HeaderEntry bitcoin))
      → IsStored codec db hl
      → Covers hl new hl'
      → Compatible codec hl' new
      → IsStored codec (synced codec db new hl'.tip) hl'
  synced-IsStored db hl hl' new s covers agree =
      let written = write codec db (add_sync_headers codec new) in
      record {
        readable =
            put-IsReadable codec written (116 ∷ []) (hash_bytes hl'.tip)
              (λ h. absurd (ground arith)) (write-IsReadable codec db new s.readable);
        held = λ i e at.
            get-put codec written (116 ∷ []) (98 ∷ hash_bytes e.hash) (hash_bytes hl'.tip)
            ∙ elim (covers i e at) [
              | inl (j, old) ↦
                  write-keeps codec db new e.hash e.header (agree i e at) (s.held j e old)
              | inr (k, added) ↦ write-holds db new k e (agree i e at) added
            ];
        tip = get-put codec written (116 ∷ []) (116 ∷ []) (hash_bytes hl'.tip);
      }

  -- After the rows of the new headers and the new tip were written, the list that is read back is the new
  -- one: the same headers, the same tip, and valid. The new list is one whose entries are old ones or
  -- added ones.
  pub load_headers-synced :
      (db : Db) (hl hl' : HeaderList bitcoin) (new : List (HeaderEntry bitcoin))
      → IsValid hl'
      → NoCollision hl'.headers
      → IsStored codec db hl
      → Covers hl new hl'
      → Compatible codec hl' new
      → (hl'' : HeaderList bitcoin) × (load_headers codec (synced codec db new hl'.tip)
          ≡ some (ok hl''))
        × (hl''.headers ≡ hl'.headers)
        × (hl''.tip ≡ hl'.tip)
        × IsValid hl''
  load_headers-synced db hl hl' new v free s covers agree =
      load_headers_lem codec (synced codec db new hl'.tip) hl' v free
        (synced-IsStored db hl hl' new s covers agree)

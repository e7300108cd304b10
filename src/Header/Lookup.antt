-- ===== src/Header/Lookup.antt =====
-- `HeaderList::header_by_blockhash` on a valid list.
use sxn_spv.Common.{ℕ, ◌≡◌, ◌↔◌, inl, inr, some, get_elem?, Option-cases, arith}
use sxn_spv.Common.Classes.{nat_eq}
use sxn_spv.Common.HashMap
use sxn_spv.Bitcoin.{Bitcoin, BlockHash}
use sxn_spv.Header.{HeaderEntry, HeaderList, header_by_blockhash}
use sxn_spv.Header.Apply.{IsValid}

module _ {bitcoin : Bitcoin} (hl : HeaderList bitcoin) (blockhash : BlockHash) where
  found_in_list :
      (e : HeaderEntry bitcoin)
      → header_by_blockhash hl blockhash ≡ some e
      → (i : ℕ) × (get_elem? hl.headers i ≡ some e) × (e.hash ≡ blockhash)
  unfolding header_by_blockhash
  found_in_list e found = elim (Option-cases (HashMap.get blockhash hl.heights)) [
    | inl missing ↦ absurd (ground arith)
    | inr (i, at) ↦ (i, ground arith, ground arith)
  ]

  pub header_by_blockhash_at :
      (i : ℕ) (e : HeaderEntry bitcoin)
      → IsValid hl
      → get_elem? hl.headers i ≡ some e
      → e.hash ≡ blockhash
      → header_by_blockhash hl blockhash ≡ some e
  unfolding header_by_blockhash
  header_by_blockhash_at i e v at same = ground (arith, v.indexed i e at)

  -- On a valid list a hash leads to an entry exactly when that entry is on the chain and has that
  -- hash: the heights of replaced entries, which are never removed, are not taken for entries.
  pub header_by_blockhash_iff :
      (e : HeaderEntry bitcoin)
      → IsValid hl
      → (header_by_blockhash hl blockhash ≡ some e)
        ↔ ((i : ℕ) × (get_elem? hl.headers i ≡ some e) × (e.hash ≡ blockhash))
  header_by_blockhash_iff e v =
      (found_in_list e, λ (i, at, same). header_by_blockhash_at i e v at same)

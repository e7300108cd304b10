-- ===== src/Indexer/Node.antt =====
-- A node whose headers were all seen, and whose header for a hash has that hash: what is downloaded from it.
use sxn_spv.Common.{
  ⊎-cases, ℕ, zero, suc, ◌≡◌, inl, inr, some, List, [], ◌∷◌, length, ◌==◌, Bool-cases, All,
  All-append, arith,
}
use mathlib.Core.Path.{subst}
use sxn_spv.Common.Outcome.{ok, ok-injective, bind-ok}
use sxn_spv.Bitcoin.{Bitcoin, BlockHash, all_zeros}
use sxn_spv.Header.{HeaderList, header_by_blockhash, is_empty}
use sxn_spv.Daemon.{
  Daemon, requested, expected, download, assert_chain, get_all_headers, is_known, headers_back,
  get_new_headers,
}

module _ {bitcoin : Bitcoin} (IsSeen : bitcoin.BlockHeader → Type 0) (daemon : Daemon bitcoin) where
  open bitcoin use {BlockHeader, prev_blockhash, block_hash}

  pub record IsNode : Type 0 where
    pub honest :
        (h : BlockHash) (x : BlockHeader) → daemon.getblockheader h ≡ inr x → block_hash x ≡ h
    pub seen : (h : BlockHash) (x : BlockHeader) → daemon.getblockheader h ≡ inr x → IsSeen x
    pub all_seen :
        (heights : List ℕ) (xs : List BlockHeader)
        → daemon.getblockheaders heights ≡ inr xs
        → All IsSeen xs

  download-Seen :
      (pieces : List (List ℕ)) (xs : List BlockHeader)
      → IsNode
      → download daemon pieces ≡ ok xs
      → All IsSeen xs
  unfolding download
  download-Seen [] xs node done = subst (All IsSeen) (ok-injective done) tt
  download-Seen (heights ∷ rest) xs node done = elim (⊎-cases (daemon.getblockheaders heights)) [
    | inl (e, failed) ↦ absurd (ground (arith, rw failed at done))
    | inr (headers, got) ↦ elim (Bool-cases (length headers == length heights)) [
      | inl same ↦
          let (more, read, all) = bind-ok (download daemon rest) _ xs (rw (got, same) at done) in
          subst (All IsSeen) (ok-injective all) (
            All-append IsSeen headers more (node.all_seen heights headers got)
              (download-Seen rest more node read))
      | inr other ↦ absurd (ground (arith, rw (got, other) at done))
    ]
  ]

  get_all_headers-Seen :
      (tip : BlockHash) (xs : List BlockHeader)
      → IsNode
      → get_all_headers daemon tip ≡ ok xs
      → All IsSeen xs
  unfolding get_all_headers
  get_all_headers-Seen tip xs node done =
      let (height, got, rest) = bind-ok (requested (daemon.block_height tip)) _ xs done in
      let (tip_height, some_, rest') = bind-ok (expected height) _ xs rest in
      let (result, read, rest'') = bind-ok (download daemon _) _ xs rest' in
      let (last, chained, rest''') = bind-ok (assert_chain daemon all_zeros result) _ xs rest'' in
      elim (Bool-cases (last == tip)) [
        | inl same ↦
            let eq : result ≡ xs = ok-injective (rw same at rest''') in
            subst (All IsSeen) eq (download-Seen _ result node read)
        | inr other ↦ absurd (ground (arith, rw other at rest'''))
      ]

  headers_back-Seen :
      (fuel : ℕ) (hl : HeaderList bitcoin) (h : BlockHash) (acc xs : List BlockHeader)
      → IsNode
      → All IsSeen acc
      → headers_back daemon fuel hl h acc ≡ some (ok xs)
      → All IsSeen xs
  unfolding headers_back
  headers_back-Seen zero hl h acc xs node a done = absurd (ground arith)
  headers_back-Seen (suc fuel) hl h acc xs node a done = elim (Bool-cases (h == all_zeros)) [
    | inl null ↦ let eq : acc ≡ xs = ground (arith, rw null at done) in subst (All IsSeen) eq a
    | inr proper ↦ elim (Bool-cases (is_known daemon (header_by_blockhash hl h))) [
      | inl known ↦
          let eq : acc ≡ xs = ground (arith, rw (proper, known) at done) in subst (All IsSeen) eq a
      | inr unknown ↦ elim (⊎-cases (daemon.getblockheader h)) [
        | inl (e, failed) ↦ absurd (ground (arith, rw (proper, unknown, failed) at done))
        | inr (x, got) ↦
            headers_back-Seen fuel hl (prev_blockhash x) (x ∷ acc) xs node (node.seen h x got, a)
              (rw (proper, unknown, got) at done)
      ]
    ]
  ]

  -- Every header that is downloaded was seen.
  pub get_new_headers-Seen :
      (fuel : ℕ) (hl : HeaderList bitcoin) (best : BlockHash) (xs : List BlockHeader)
      → IsNode
      → get_new_headers daemon fuel hl best ≡ some (ok xs)
      → All IsSeen xs
  unfolding get_new_headers
  get_new_headers-Seen fuel hl best xs node done = elim (Bool-cases (is_empty hl)) [
    | inl hollow ↦
        let all : get_all_headers daemon best ≡ ok xs = ground (arith, rw hollow at done) in
        get_all_headers-Seen best xs node all
    | inr filled ↦ headers_back-Seen fuel hl best [] xs node tt (rw filled at done)
  ]

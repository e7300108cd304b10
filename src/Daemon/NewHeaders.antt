-- ===== src/Daemon/NewHeaders.antt =====
-- What `get_new_headers` returns, and what comes of it: the list of headers reaches the tip of the node.
use sxn_spv.Common.{
  ⊎-cases, ℕ, zero, suc, ◌≤◌, ◌<◌, ◌≡◌, ◌⊎◌, inl, inr, refl, sym, ◌∙◌, true, false, Option, none,
  some, List, [], ◌∷◌, ◌==◌, ==_iff, Bool-cases, length, get_elem?-lt, take, arith,
}
use mathlib.Core.Path.{subst}
use sxn_spv.Common.Outcome.{Outcome, ok, err, ◌>>=◌}
use sxn_spv.Bitcoin.{Bitcoin, BlockHash, all_zeros}
use sxn_spv.Header.{HeaderEntry, HeaderList, header_by_blockhash, is_empty, order, apply}
use sxn_spv.Header.Chain.{last_hash, last_hash-take-suc, NoCollision}
use sxn_spv.Header.Apply.{IsValid}
use sxn_spv.Header.Lookup.{header_by_blockhash_iff}
use sxn_spv.Header.Order.{order-apply}
use sxn_spv.Daemon.{
  Daemon, DaemonError, header_failed, is_known, headers_back, get_all_headers, get_new_headers,
}
use sxn_spv.Daemon.AllHeaders.{Spans, get_all_headers-Spans}

module _ {bitcoin : Bitcoin} (daemon : Daemon bitcoin) (hl : HeaderList bitcoin) where
  open bitcoin use {BlockHeader, prev_blockhash, block_hash}

  -- The header that the node gives for a hash has that hash.
  abbrev pub IsHonest : Type 0
  IsHonest = (h : BlockHash) (x : BlockHeader) → daemon.getblockheader h ≡ inr x → block_hash x ≡ h

  -- The null hash, or the hash of a block of the list.
  abbrev pub IsRoot : BlockHash → Type 0
  IsRoot prev = (prev ≡ all_zeros) ⊎ (is_known daemon (header_by_blockhash hl prev) ≡ true)

  abbrev pub FromRoot : BlockHash → List BlockHeader → Type 0
  FromRoot tip headers = (prev : BlockHash) × IsRoot prev × Spans daemon prev tip headers

  Spans-extend :
      (h tip : BlockHash) (x : BlockHeader) (acc : List BlockHeader)
      → block_hash x ≡ h
      → Spans daemon h tip acc
      → Spans daemon (prev_blockhash x) tip (x ∷ acc)
  Spans-extend h tip x acc same span =
      let (links, last) = subst (λ (k : BlockHash). Spans daemon k tip acc) (sym same) span in
      ((refl, links), last)

  headers_back_lem :
      (fuel : ℕ) (h tip : BlockHash) (acc headers : List BlockHeader)
      → IsHonest
      → Spans daemon h tip acc
      → headers_back daemon fuel hl h acc ≡ some (ok headers)
      → FromRoot tip headers
  unfolding headers_back
  headers_back_lem zero h tip acc headers honest span done = absurd (ground arith)
  headers_back_lem (suc fuel) h tip acc headers honest span done =
      elim (Bool-cases (h == all_zeros)) [
        | inl null ↦
            let eq : acc ≡ headers = ground (arith, rw null at done) in
            subst (FromRoot tip) eq (h, inl ((==_iff h all_zeros).0 null), span)
        | inr proper ↦ elim (Bool-cases (is_known daemon (header_by_blockhash hl h))) [
          | inl known ↦
              let eq : acc ≡ headers = ground (arith, rw (proper, known) at done) in
              subst (FromRoot tip) eq (h, inr known, span)
          | inr unknown ↦ elim (⊎-cases (daemon.getblockheader h)) [
            | inl (e, failed) ↦ absurd (ground (arith, rw (proper, unknown, failed) at done))
            | inr (x, got) ↦
                headers_back_lem fuel (prev_blockhash x) tip (x ∷ acc) headers honest
                  (Spans-extend h tip x acc (honest h x got) span)
                  (rw (proper, unknown, got) at done)
          ]
        ]
      ]

  -- Every call ends where the node's headers lead to lower and lower blocks: fuel above the rank of the
  -- tip is enough.
  pub headers_back_total :
      (rank : BlockHash → ℕ) (fuel : ℕ) (h : BlockHash) (acc : List BlockHeader)
      → ((g : BlockHash) (x : BlockHeader)
          → daemon.getblockheader g ≡ inr x
          → rank (prev_blockhash x) < rank g)
      → rank h < fuel
      → (r : Outcome DaemonError (List BlockHeader)) × (headers_back daemon fuel hl h acc ≡ some r)
  unfolding headers_back
  headers_back_total rank zero h acc lower enough = absurd (omega arith)
  headers_back_total rank (suc fuel) h acc lower enough = elim (Bool-cases (h == all_zeros)) [
    | inl null ↦ (ok acc, rw (null, headers_back) refl)
    | inr proper ↦ elim (Bool-cases (is_known daemon (header_by_blockhash hl h))) [
      | inl known ↦ (ok acc, rw (proper, known, headers_back) refl)
      | inr unknown ↦ elim (⊎-cases (daemon.getblockheader h)) [
        | inl (e, failed) ↦ (err (header_failed h), rw (proper, unknown, failed, headers_back) refl)
        | inr (x, got) ↦
            let (r, done) =
              headers_back_total rank fuel (prev_blockhash x) (x ∷ acc) lower
                (omega (arith, lower h x got)) in
            (r, rw (proper, unknown, got, headers_back) done)
      ]
    ]
  ]

  is_known-some :
      (o : Option (HeaderEntry bitcoin))
      → is_known daemon o ≡ true
      → (e : HeaderEntry bitcoin) × (o ≡ some e)
  is_known-some none h = absurd (ground arith)
  is_known-some (some e) h = (e, refl)

  -- A root is where some prefix of a valid list ends.
  pub root_at :
      (prev : BlockHash)
      → IsValid hl
      → IsRoot prev
      → (n : ℕ) × (n ≤ length hl.headers) × (last_hash all_zeros (take n hl.headers) ≡ prev)
  root_at prev v (inl null) = (0, omega arith, sym null)
  root_at prev v (inr known) =
      let (e, found) = is_known-some (header_by_blockhash hl prev) known in
      let (i, at, same) = (header_by_blockhash_iff hl prev e v).0 found in
      (
        suc i,
        omega (arith, get_elem?-lt hl.headers i at),
        last_hash-take-suc all_zeros i hl.headers e at ∙ same,
      )

  -- Whatever the list, the headers that are returned lead from a root to the block asked for.
  pub get_new_headers_lem :
      (fuel : ℕ) (best : BlockHash) (headers : List BlockHeader)
      → IsHonest
      → get_new_headers daemon fuel hl best ≡ some (ok headers)
      → FromRoot best headers
  unfolding get_new_headers
  get_new_headers_lem fuel best headers honest done = elim (Bool-cases (is_empty hl)) [
    | inl hollow ↦
        let all : get_all_headers daemon best ≡ ok headers = ground (arith, rw hollow at done) in
        (all_zeros, inl refl, get_all_headers-Spans daemon best headers all)
    | inr filled ↦ headers_back_lem fuel best best [] headers honest (tt, refl) (rw filled at done)
  ]

  -- One round of synchronisation, from a valid list that is not empty: if a node that gives every hash its own
  -- header is asked for a tip, and returns new headers, then ordering and applying them neither
  -- panics nor leaves the list where it was, and the new tip is the one that was asked for.
  pub get_new_headers_sync :
      (fuel : ℕ) (best : BlockHash) (h : BlockHeader) (hs : List BlockHeader)
      → IsValid hl
      → NoCollision hl.headers
      → IsHonest
      → is_empty hl ≡ false
      → get_new_headers daemon fuel hl best ≡ some (ok (h ∷ hs))
      → (hl' : HeaderList bitcoin) × ((order hl (h ∷ hs) >>= apply hl) ≡ ok hl') × (hl'.tip ≡ best)
  unfolding get_new_headers
  get_new_headers_sync fuel best h hs v free honest filled done =
      let (prev, root, span) = get_new_headers_lem fuel best (h ∷ hs) honest done in
      let (n, below, ends) = root_at prev v root in
      let (links, last) = subst (λ (p : BlockHash). Spans daemon p best (h ∷ hs)) (sym ends) span in
      let (hl', applied, shape, at_tip) = order-apply hl n h hs v free below links in
      (hl', applied, at_tip ∙ last)

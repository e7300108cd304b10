-- ===== src/Daemon/AllHeaders.antt =====
-- What `get_all_headers` has checked of the headers that it returns.
use sxn_spv.Common.{◌≡◌, inl, inr, List, [], ◌∷◌, ◌==◌, ==_iff, Bool-cases, arith}
use mathlib.Core.Path.{subst}
use sxn_spv.Common.Outcome.{ok, bind-ok, ok-injective}
use sxn_spv.Bitcoin.{Bitcoin, BlockHash, all_zeros}
use sxn_spv.Header.Order.{HeaderChain, last_block_hash}
use sxn_spv.Daemon.{Daemon, requested, expected, download, assert_chain, get_all_headers}

module _ {bitcoin : Bitcoin} (daemon : Daemon bitcoin) where
  open bitcoin use {BlockHeader, prev_blockhash, block_hash}

  -- A list of headers from one hash to another.
  abbrev pub Spans : BlockHash → BlockHash → List BlockHeader → Type 0
  Spans prev tip headers =
      HeaderChain bitcoin prev headers × (last_block_hash bitcoin prev headers ≡ tip)

  assert_chain_lem :
      (prev tip : BlockHash) (headers : List BlockHeader)
      → assert_chain daemon prev headers ≡ ok tip
      → Spans prev tip headers
  unfolding assert_chain
  assert_chain_lem prev tip [] done = (tt, ok-injective done)
  assert_chain_lem prev tip (h ∷ headers) done = elim (Bool-cases (prev_blockhash h == prev)) [
    | inl same ↦
        let (links, last) = assert_chain_lem (block_hash h) tip headers (rw same at done) in
        (((==_iff (prev_blockhash h) prev).0 same, links), last)
    | inr other ↦ absurd (ground (arith, rw other at done))
  ]

  -- The headers that `get_all_headers` returns form a chain from the null hash to the tip, whatever the node
  -- answers.
  pub get_all_headers-Spans :
      (tip : BlockHash) (headers : List BlockHeader)
      → get_all_headers daemon tip ≡ ok headers
      → Spans all_zeros tip headers
  unfolding get_all_headers
  get_all_headers-Spans tip headers done =
      let (height, got, rest) = bind-ok (requested (daemon.block_height tip)) _ headers done in
      let (tip_height, some_, rest') = bind-ok (expected height) _ headers rest in
      let (result, read, rest'') = bind-ok (download daemon _) _ headers rest' in
      let (last, chained, rest''') =
        bind-ok (assert_chain daemon all_zeros result) _ headers rest'' in
      elim (Bool-cases (last == tip)) [
        | inl same ↦
            let eq : result ≡ headers = ok-injective (rw same at rest''') in
            let at_tip : last ≡ tip = (==_iff last tip).0 same in
            subst (Spans all_zeros tip) eq (
              subst (λ (t : BlockHash). Spans all_zeros t result) at_tip
                (assert_chain_lem all_zeros last result chained))
        | inr other ↦ absurd (ground (arith, rw other at rest'''))
      ]

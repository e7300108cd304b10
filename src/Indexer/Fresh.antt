-- ===== src/Indexer/Fresh.antt =====
-- A round in which no downloaded block was added before, and the start of an empty store.
use sxn_spv.Common.{
  ℕ, ◌+◌, ◌≡◌, refl, sym, ap, ◌∙◌, true, false, some, List, [], ◌∷◌, take, ◌==◌, ==_iff, All,
}
use mathlib.Core.Path.{subst}
use sxn_spv.Common.Outcome.{ok}
use sxn_spv.Common.Order.{bytes_ord}
use sxn_spv.Bitcoin.{Bitcoin, BlockHash, all_zeros}
use sxn_spv.Header
use sxn_spv.Header.{HeaderEntry, HeaderList, number_from, order, apply}
use sxn_spv.Header.Chain.{last_hash}
use sxn_spv.Header.Invariant.{tip_lem}
use sxn_spv.Header.Order.{HeaderChain, hashed, order_lem, order-apply}
use sxn_spv.Daemon.{Daemon, get_new_headers}
use sxn_spv.Daemon.NewHeaders.{IsHonest, root_at, get_new_headers_lem}
use sxn_spv.Store.{Codec}
use sxn_spv.Store.Open.{Store}
use sxn_spv.Indexer.{holds, sync_headers_to_add, written, applied, compared, sync_headers}
use sxn_spv.Indexer.Chains.{Injective, Proper, good-NoCollision}
use sxn_spv.Indexer.Filter.{number_from-Good}
use sxn_spv.Indexer.Written.{IsSynced, IsSettled, written_lem}
use sxn_spv.Indexer.Round.{applied-IsSynced}

module _ {bitcoin : Bitcoin} (codec : Codec bitcoin) (IsSeen : bitcoin.BlockHeader → Type 0)
    (injective : Injective bitcoin IsSeen) (proper : Proper bitcoin IsSeen) where
  open bitcoin use {BlockHeader, block_hash}

  -- No header was added before.
  abbrev pub IsFresh : Store bitcoin → List BlockHeader → Type 0
  IsFresh store = All (λ x. holds (block_hash x) store.synced_blockhashes ≡ false)

  all_to_add :
      (store : Store bitcoin) (n : ℕ) (hs : List BlockHeader)
      → IsFresh store hs
      → sync_headers_to_add store (number_from n (hashed bitcoin hs))
        ≡ number_from n (hashed bitcoin hs)
  unfolding sync_headers_to_add number_from
  all_to_add store n [] a = refl
  all_to_add store n (h ∷ hs) a =
      let first : HeaderEntry bitcoin = record { height = n; hash = block_hash h; header = h } in
      rw a.0
        (ap (λ (es : List (HeaderEntry bitcoin)). first ∷ es) (all_to_add store (n + 1) hs a.1))

  compared-IsSettled :
      (store : Store bitcoin) (best : BlockHash) (hl : HeaderList bitcoin)
      → IsSynced codec IsSeen (record store { sync_headers = hl })
      → hl.tip ≡ best
      → (store' : Store bitcoin) × (applied codec store best (ok hl) ≡ some (ok tt, store'))
        × IsSettled codec IsSeen best store'
  compared-IsSettled store best hl s at_tip =
      let tip : Header.tip hl ≡ ok hl.tip =
        tip_lem hl s.valid ∙ ap (λ (t : BlockHash). ok t) (sym s.valid.tip_last) in
      let same : (best == hl.tip) ≡ true = (==_iff best hl.tip).1 (sym at_tip) in
      (record store { sync_headers = hl }, rw (tip, same, compared) refl, (at_tip, s))

  -- A round from a store that is in order succeeds if the node, which gives every hash its own header, has
  -- returned new headers and none of them was added before. The list in memory then ends at the block that
  -- was asked for, and the store is in order.
  pub sync_headers-fresh :
      (fuel : ℕ) (daemon : Daemon bitcoin) (store : Store bitcoin) (best : BlockHash)
      (h : BlockHeader) (hs : List BlockHeader)
      → IsSynced codec IsSeen store
      → IsHonest daemon store.sync_headers
      → get_new_headers daemon fuel store.sync_headers best ≡ some (ok (h ∷ hs))
      → All IsSeen (h ∷ hs)
      → IsFresh store (h ∷ hs)
      → (store' : Store bitcoin) × (sync_headers codec fuel daemon store best
          ≡ some (ok tt, store'))
        × IsSettled codec IsSeen best store'
  unfolding sync_headers
  sync_headers-fresh fuel daemon store best h hs s honest got seen fresh =
      let hl = store.sync_headers in
      let (prev, root, (links, last)) =
        get_new_headers_lem daemon hl fuel best (h ∷ hs) honest got in
      let (n, le, ends) = root_at daemon hl prev s.valid root in
      let start = last_hash all_zeros (take n hl.headers) in
      let chain : HeaderChain bitcoin start (h ∷ hs) =
        subst (λ (p : BlockHash). HeaderChain bitcoin p (h ∷ hs)) (sym ends) links in
      let free = good-NoCollision IsSeen injective proper hl.headers s.good in
      let es = number_from n (hashed bitcoin (h ∷ hs)) in
      let listed : order hl (h ∷ hs) ≡ ok es = order_lem hl n h hs s.valid free le chain in
      let (hl', done, shape, at_tip) = order-apply hl n h hs s.valid free le chain in
      let good = number_from-Good bitcoin IsSeen n (h ∷ hs) seen in
      let all = all_to_add store n (h ∷ hs) fresh in
      let applies : apply hl (sync_headers_to_add store es) ≡ ok hl' = rw all (rw listed at done) in
      let w = written_lem codec IsSeen injective proper store best es s good in
      let (store', ended, settled) =
        compared-IsSettled (written codec store best (sync_headers_to_add store es)) best hl'
          (applied-IsSynced codec IsSeen injective proper store best es hl' s good w applies)
          (at_tip ∙ last) in
      (store', rw (got, listed, applies) ended, settled)

-- ===== src/Indexer/Written.antt =====
-- The headers that a round orders, and the store after their rows and the tip were written.
use sxn_spv.Common.{
  ℕ, ◌≡◌, inl, inr, refl, sym, ap, ◌∙◌, true, not, some, List, [], ◌∷◌, length, get_elem?, take,
  Bool-cases, All, All-keep, arith,
}
use mathlib.Core.Path.{subst}
use sxn_spv.Common.Outcome.{ok}
use sxn_spv.Bitcoin.{Bitcoin, BlockHash, all_zeros}
use sxn_spv.Header.{HeaderEntry, HeaderList, number_from, order}
use sxn_spv.Header.Chain.{last_hash}
use sxn_spv.Header.Apply.{IsValid}
use sxn_spv.Header.Order.{HeaderChain, hashed, order_lem, number_from-Linked, number_from-last_hash}
use sxn_spv.Daemon.{Daemon}
use sxn_spv.Daemon.NewHeaders.{FromRoot, root_at}
use sxn_spv.Store.{Db, Codec, put, get, write, add_sync_headers}
use sxn_spv.Store.Put.{get-put}
use sxn_spv.Store.Open.{Store, read_store}
use sxn_spv.Indexer.{holds, hashes_of, add_sync_block_header, sync_headers_to_add, written}
use sxn_spv.Indexer.Chains.{
  FromEither, IsGood, AllGood, Injective, Proper, good-NoCollision, target_list,
}
use sxn_spv.Indexer.Ready.{
  IsKept, IsReady, put_tip-IsReady, put_tip-IsKept, write-IsReady, write-IsKept, write-adds,
}
use sxn_spv.Indexer.Chunks.{write_chunks-chunks}
use sxn_spv.Indexer.Filter.{holds-append, holds-hashes, keep-at, number_from-Good}

module _ {bitcoin : Bitcoin} (codec : Codec bitcoin) (IsSeen : bitcoin.BlockHeader → Type 0) where
  open codec use {hash_bytes, header_bytes}

  -- What holds of a store between two rounds: every block that the set or the list has stands in the
  -- database, and the list is valid.
  pub record IsSynced (store : Store bitcoin) : Type 0 where
    pub ready : IsReady codec IsSeen store.sync_db
    pub kept :
        (h : BlockHash)
        → holds h store.synced_blockhashes ≡ true
        → IsKept codec IsSeen store.sync_db h
    pub valid : IsValid store.sync_headers
    pub good : AllGood IsSeen store.sync_headers.headers
    pub held :
        (i : ℕ) (e : HeaderEntry bitcoin)
        → get_elem? store.sync_headers.headers i ≡ some e
        → IsKept codec IsSeen store.sync_db e.hash

  -- The list ends at a block.
  abbrev pub IsSettled : BlockHash → Store bitcoin → Type 0
  IsSettled best store = (store.sync_headers.tip ≡ best) × IsSynced store

  -- From the database alone, a settled store is read.
  abbrev pub Recovers : BlockHash → Db → Type 0
  Recovers best db =
      (store : Store bitcoin) × (read_store codec db ≡ some (ok store))
      × (store.sync_db ≡ db)
      × IsSettled best store

  -- A list that the rows of a database and some new entries make up.
  abbrev pub Target : Store bitcoin → List (HeaderEntry bitcoin) → BlockHash → Type 0
  Target store es best =
      (hl : HeaderList bitcoin) × FromEither store.sync_headers es hl.headers
      × (hl.tip ≡ best)
      × IsValid hl

  abbrev rows_written : Store bitcoin → List (HeaderEntry bitcoin) → Db
  rows_written store to_add = write codec store.sync_db (add_sync_headers codec to_add)

  -- The store after the rows and the tip were written: what it had is there, and all that is new.
  pub record Written (store : Store bitcoin) (best : BlockHash)
      (es to_add : List (HeaderEntry bitcoin)) : Type 0 where
    pub ready : IsReady codec IsSeen (written codec store best to_add).sync_db
    pub old :
        (h : BlockHash)
        → IsKept codec IsSeen store.sync_db h
        → IsKept codec IsSeen (written codec store best to_add).sync_db h
    pub new :
        (k : ℕ) (e : HeaderEntry bitcoin)
        → get_elem? es k ≡ some e
        → IsKept codec IsSeen (written codec store best to_add).sync_db e.hash
    pub set :
        (h : BlockHash)
        → holds h (written codec store best to_add).synced_blockhashes ≡ true
        → IsKept codec IsSeen (written codec store best to_add).sync_db h
    pub tip :
        get codec (written codec store best to_add).sync_db (116 ∷ []) ≡ some (hash_bytes best)

  module _ (injective : Injective bitcoin IsSeen) (proper : Proper bitcoin IsSeen) where
    pub ordered-Target :
        (daemon : Daemon bitcoin) (store : Store bitcoin) (best : BlockHash)
        (new : List bitcoin.BlockHeader)
        → IsSynced store
        → All IsSeen new
        → FromRoot daemon store.sync_headers best new
        → (es : List (HeaderEntry bitcoin)) × (order store.sync_headers new ≡ ok es)
          × All (IsGood IsSeen) es
          × Target store es best
    unfolding order
    ordered-Target daemon store best [] s seen (prev, root, span) =
        let hl = store.sync_headers in
        let (n, le, ends) = root_at daemon hl prev s.valid root in
        let (hl', from, at_tip, valid) =
          target_list IsSeen injective proper hl n [] s.valid s.good tt le tt in
        ([], refl, tt, (hl', from, at_tip ∙ ends ∙ span.1, valid))
    ordered-Target daemon store best (h ∷ hs) s seen (prev, root, span) =
        let hl = store.sync_headers in
        let (n, le, ends) = root_at daemon hl prev s.valid root in
        let start = last_hash all_zeros (take n hl.headers) in
        let (links, last) = span in
        let chain : HeaderChain bitcoin start (h ∷ hs) =
          subst (λ (p : BlockHash). HeaderChain bitcoin p (h ∷ hs)) (sym ends) links in
        let es = number_from n (hashed bitcoin (h ∷ hs)) in
        let good = number_from-Good bitcoin IsSeen n (h ∷ hs) seen in
        let free = good-NoCollision IsSeen injective proper hl.headers s.good in
        let (hl', from, at_tip, valid) =
          target_list IsSeen injective proper hl n es s.valid s.good good le
            (number_from-Linked bitcoin start n n (h ∷ hs) refl chain) in
        (
          es,
          order_lem hl n h hs s.valid free le chain,
          good,
          (hl', from, at_tip ∙ number_from-last_hash bitcoin start n (h ∷ hs) ∙ last, valid),
        )

    written_db :
        (store : Store bitcoin) (best : BlockHash) (to_add : List (HeaderEntry bitcoin))
        → (written codec store best to_add).sync_db
          ≡ put codec (rows_written store to_add) (116 ∷ []) (hash_bytes best)
    unfolding written add_sync_block_header
    written_db store best to_add =
        let rows = add_sync_headers codec to_add in
        ap (λ (d : Db). put codec d (116 ∷ []) (hash_bytes best))
          (write_chunks-chunks codec store.sync_db (length rows) 50000 rows (omega arith)
            (omega arith))

    pub written_lem :
        (store : Store bitcoin) (best : BlockHash) (es : List (HeaderEntry bitcoin))
        → IsSynced store
        → All (IsGood IsSeen) es
        → Written store best es (sync_headers_to_add store es)
    unfolding written add_sync_block_header sync_headers_to_add
    written_lem store best es s good =
        let to_add = sync_headers_to_add store es in
        let fresh = λ (e : HeaderEntry bitcoin). not (holds e.hash store.synced_blockhashes) in
        let good' : All (IsGood IsSeen) to_add = All-keep (IsGood IsSeen) fresh es good in
        let db = rows_written store to_add in
        let there : put codec db (116 ∷ []) (hash_bytes best)
            ≡ (written codec store best to_add).sync_db =
          sym (written_db store best to_add) in
        let tip_kept = λ (h : BlockHash) (k : IsKept codec IsSeen db h).
          subst (λ (d : Db). IsKept codec IsSeen d h) there
            (put_tip-IsKept codec IsSeen db (hash_bytes best) h k) in
        let old = λ (h : BlockHash) (k : IsKept codec IsSeen store.sync_db h).
          tip_kept h (write-IsKept codec IsSeen injective store.sync_db to_add h good' k) in
        let added = λ (j : ℕ) (e : HeaderEntry bitcoin) (at : get_elem? to_add j ≡ some e).
          tip_kept e.hash (write-adds codec IsSeen injective store.sync_db to_add j e good' at) in
        record {
          ready = subst (IsReady codec IsSeen) there (
              put_tip-IsReady codec IsSeen db (hash_bytes best)
                (write-IsReady codec IsSeen injective store.sync_db to_add good' s.ready));
          old = old;
          new = λ k e at. elim (Bool-cases (holds e.hash store.synced_blockhashes)) [
            | inl synced ↦ old e.hash (s.kept e.hash synced)
            | inr fresh_ ↦ let (j, at') = keep-at fresh es k e at (rw fresh_ refl) in added j e at'
          ];
          set = λ h found. elim (holds-append h (hashes_of to_add) store.synced_blockhashes found) [
            | inl here ↦
                let (j, e, at, hash) = holds-hashes h to_add here in
                subst (IsKept codec IsSeen (written codec store best to_add).sync_db) hash
                  (added j e at)
            | inr before ↦ old h (s.kept h before)
          ];
          tip =
              subst (λ (d : Db). get codec d (116 ∷ []) ≡ some (hash_bytes best)) there
                (get-put codec db (116 ∷ []) (116 ∷ []) (hash_bytes best));
        }

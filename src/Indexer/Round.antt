-- ===== src/Indexer/Round.antt =====
-- What a round of `sync_headers` leaves behind: in memory, and for the next start.
use sxn_spv.Common.{
  ℕ, ◌≡◌, ◌⊎◌, inl, inr, refl, sym, ap, ◌∙◌, not, some, List, [], ◌∷◌, get_elem?, keep, ◌==◌,
  ==_iff, Bool-cases, All, All-keep,
}
use mathlib.Core.Path.{subst}
use sxn_spv.Common.Outcome.{Outcome, Panics, ok, err, panic}
use sxn_spv.Bitcoin.{Bitcoin, BlockHash}
use sxn_spv.Header.{HeaderEntry, HeaderList, number_from, order, apply}
use sxn_spv.Header
use sxn_spv.Header.Apply.{IsValid}
use sxn_spv.Header.Invariant.{tip_lem}
use sxn_spv.Daemon.{Daemon, get_new_headers}
use sxn_spv.Daemon.NewHeaders.{IsHonest, get_new_headers_lem}
use sxn_spv.Store.{Db, Codec, get}
use sxn_spv.Store.Reopen.{IsStored, load_headers_lem}
use sxn_spv.Store.Open.{Store, read_store, reload_store}
use sxn_spv.Indexer.{
  SyncError, tip_not_equal, holds, sync_headers_to_add, written, Round, applied, compared, ordered,
  sync_headers,
}
use sxn_spv.Indexer.Chains.{
  FromEither, IsGood, AllGood, Injective, Proper, FromEither-AllGood, good-NoCollision, apply_list,
}
use sxn_spv.Indexer.Ready.{IsKept, IsReady, load_blockhashes_lem, good-agrees}
use sxn_spv.Indexer.Filter.{keep-of}
use sxn_spv.Indexer.Written.{
  IsSynced, IsSettled, Recovers, Target, ordered-Target, Written, written_lem,
}

module _ {bitcoin : Bitcoin} (codec : Codec bitcoin) (IsSeen : bitcoin.BlockHeader → Type 0)
    (injective : Injective bitcoin IsSeen) (proper : Proper bitcoin IsSeen) where
  open codec use {hash_bytes, header_bytes}

  -- What a round ends in once headers were downloaded.
  abbrev pub Outcomes : BlockHash → Outcome SyncError (Unit {0}) → Store bitcoin → Type 0
  Outcomes best r store =
      ((r ≡ ok tt) × IsSettled codec IsSeen best store)
      ⊎ (((r ≡ err tip_not_equal) × IsSettled codec IsSeen best store) ⊎ (r ≡ panic))

  abbrev Ends : Round codec → BlockHash → Type 0
  Ends round best =
      (r : Outcome SyncError (Unit {0})) × (store : Store bitcoin) × (round ≡ some (r, store))
      × Recovers codec IsSeen best store.sync_db
      × Outcomes best r store

  Target-good :
      (store : Store bitcoin) (es : List (HeaderEntry bitcoin)) (hl : HeaderList bitcoin)
      → IsSynced codec IsSeen store
      → All (IsGood IsSeen) es
      → FromEither store.sync_headers es hl.headers
      → AllGood IsSeen hl.headers
  Target-good store es hl s good from =
      FromEither-AllGood IsSeen store.sync_headers es hl.headers s.good good from

  Target-kept :
      (store : Store bitcoin) (best : BlockHash) (es : List (HeaderEntry bitcoin))
      (hl : HeaderList bitcoin)
      → IsSynced codec IsSeen store
      → Written codec IsSeen store best es (sync_headers_to_add store es)
      → FromEither store.sync_headers es hl.headers
      → (i : ℕ) (e : HeaderEntry bitcoin) → get_elem? hl.headers i ≡ some e
      → IsKept codec IsSeen (written codec store best (sync_headers_to_add store es)).sync_db e.hash
  Target-kept store best es hl s w from i e at = elim (from i e at) [
    | inl (j, before) ↦ w.old e.hash (s.held j e before)
    | inr (k, added) ↦ w.new k e added
  ]

  -- Entries that are kept stand in the database with their own headers.
  kept-held :
      (db : Db) (e : HeaderEntry bitcoin)
      → IsGood IsSeen e
      → IsKept codec IsSeen db e.hash
      → get codec db (98 ∷ hash_bytes e.hash) ≡ some (header_bytes e.header)
  kept-held db e good (x, seen, hash, at) =
      at
      ∙ ap (λ (y : bitcoin.BlockHeader). some (header_bytes y))
          (sym (good-agrees codec IsSeen injective e x e.hash good seen hash refl))

  recovers :
      (db : Db) (hl : HeaderList bitcoin) (best : BlockHash)
      → IsReady codec IsSeen db
      → IsValid hl
      → AllGood IsSeen hl.headers
      → ((i : ℕ) (e : HeaderEntry bitcoin)
          → get_elem? hl.headers i ≡ some e
          → IsKept codec IsSeen db e.hash)
      → hl.tip ≡ best
      → get codec db (116 ∷ []) ≡ some (hash_bytes best)
      → Recovers codec IsSeen best db
  unfolding read_store
  recovers db hl best ready valid good kept at_tip tip_row =
      let free = good-NoCollision IsSeen injective proper hl.headers good in
      let (hashes, read, each) = load_blockhashes_lem codec IsSeen db ready in
      let stored : IsStored codec db hl = record {
        readable = ready.readable;
        held = λ i e at. kept-held db e (good i e at) (kept i e at);
        tip = tip_row ∙ ap (λ (t : BlockHash). some (hash_bytes t)) (sym at_tip);
      } in
      let (hl', loaded, same, same_tip, valid') = load_headers_lem codec db hl valid free stored in
      let store : Store bitcoin = record {
        sync_db = db;
        synced_blockhashes = hashes;
        sync_headers = hl';
      } in
      (
        store,
        rw (read, loaded) refl,
        refl,
        (
          same_tip ∙ at_tip,
          record {
            ready = ready;
            kept = each;
            valid = valid';
            good = subst (AllGood IsSeen) (sym same) good;
            held = λ i e at.
                kept i e
                  (subst (λ (es : List (HeaderEntry bitcoin)). get_elem? es i ≡ some e) same at);
          },
        ),
      )

  Panics-cases {ℓ} : {A : Type ℓ} (m : Panics A) → ((a : A) × (m ≡ ok a)) ⊎ (m ≡ panic)
  Panics-cases (ok a) = inl (a, refl)
  Panics-cases (err e) = elim e [ ]
  Panics-cases panic = inr refl

  -- The store with a list that `apply` has returned.
  pub applied-IsSynced :
      (store : Store bitcoin) (best : BlockHash) (es : List (HeaderEntry bitcoin))
      (hl : HeaderList bitcoin)
      → IsSynced codec IsSeen store
      → All (IsGood IsSeen) es
      → Written codec IsSeen store best es (sync_headers_to_add store es)
      → apply store.sync_headers (sync_headers_to_add store es) ≡ ok hl
      → IsSynced codec IsSeen
          (record (written codec store best (sync_headers_to_add store es)) { sync_headers = hl })
  unfolding sync_headers_to_add
  applied-IsSynced store best es hl s good w done =
      let fresh = λ (e : HeaderEntry bitcoin). not (holds e.hash store.synced_blockhashes) in
      let to_add = keep fresh es in
      let good' : All (IsGood IsSeen) to_add = All-keep (IsGood IsSeen) fresh es good in
      let (from, valid) =
        apply_list IsSeen injective proper store.sync_headers hl to_add s.valid s.good good' done in
      record {
        ready = w.ready;
        kept = w.set;
        valid = valid;
        good = FromEither-AllGood IsSeen store.sync_headers to_add hl.headers s.good good' from;
        held = λ i e at. elim (from i e at) [
          | inl (j, before) ↦ w.old e.hash (s.held j e before)
          | inr (k, added) ↦ let (j, there) = keep-of fresh es k e added in w.new j e there
        ];
      }

  applied_lem :
      (store store' : Store bitcoin) (best : BlockHash) (hl : HeaderList bitcoin)
      → IsSynced codec IsSeen (record store' { sync_headers = hl })
      → Recovers codec IsSeen best store'.sync_db
      → Ends (applied codec store' best (ok hl)) best
  unfolding reload_store
  applied_lem store store' best hl s (found, read, same_db, settled) =
      let tip : Header.tip hl ≡ ok hl.tip =
        tip_lem hl s.valid ∙ ap (λ (t : BlockHash). ok t) (sym s.valid.tip_last) in
      elim (Bool-cases (best == hl.tip)) [
        | inl same ↦ (
          ok tt,
          record store' { sync_headers = hl },
          rw (tip, same, compared) refl,
          (found, read, same_db, settled),
          inl (refl, (sym ((==_iff best hl.tip).0 same), s)),
        )
        | inr other ↦ (
          err tip_not_equal,
          found,
          rw (tip, other, read, compared) refl,
          subst (Recovers codec IsSeen best) (sym same_db) (found, read, same_db, settled),
          inr (inl (refl, settled)),
        )
      ]

  ordered_lem :
      (store : Store bitcoin) (best : BlockHash) (es : List (HeaderEntry bitcoin))
      → IsSynced codec IsSeen store
      → All (IsGood IsSeen) es
      → Target codec IsSeen store es best
      → Ends (ordered codec store best (ok es)) best
  ordered_lem store best es s good (hl, from, at_tip, valid) =
      let w = written_lem codec IsSeen injective proper store best es s good in
      let to_add = sync_headers_to_add store es in
      let store' = written codec store best to_add in
      let back =
        recovers store'.sync_db hl best w.ready valid (Target-good store es hl s good from)
          (Target-kept store best es hl s w from) at_tip w.tip in
      elim (Panics-cases (apply store.sync_headers to_add)) [
        | inl (hl', done) ↦ rw done (
            applied_lem store store' best hl' (applied-IsSynced store best es hl' s good w done)
              back)
        | inr stopped ↦ (panic, store', rw stopped refl, back, inr (inr refl))
      ]

  -- One round, from a store that is in order, once a node that gives every hash its own header has answered:
  -- the round ends. If it ends with success or with the error that the tips differ, the list in memory
  -- ends at the block that was asked for, and the store is in order. However it ends, also with a panic in
  -- `apply`, a store is read back from the database whose list ends at that block and which is in order.
  pub sync_headers-Recovers :
      (fuel : ℕ) (daemon : Daemon bitcoin) (store : Store bitcoin) (best : BlockHash)
      (new : List bitcoin.BlockHeader)
      → IsSynced codec IsSeen store
      → IsHonest daemon store.sync_headers
      → get_new_headers daemon fuel store.sync_headers best ≡ some (ok new)
      → All IsSeen new
      → (r : Outcome SyncError (Unit {0})) × (store' : Store bitcoin) × (sync_headers codec fuel
            daemon store best
          ≡ some (r, store'))
        × Recovers codec IsSeen best store'.sync_db
        × Outcomes best r store'
  unfolding sync_headers
  sync_headers-Recovers fuel daemon store best new s honest got seen =
      let root = get_new_headers_lem daemon store.sync_headers fuel best new honest got in
      let (es, done, good, target) =
        ordered-Target codec IsSeen injective proper daemon store best new s seen root in
      rw (got, done) (ordered_lem store best es s good target)

-- ===== src/Indexer/Loop/Invariant.antt =====
-- What holds after every turn of the indexer's thread.
use sxn_spv.Common.{
  ℕ, ◌≡◌, ◌⊎◌, inl, inr, refl, sym, ◌∙◌, String, true, Option, none, some, List, [], ◌∷◌, ◌==◌,
  Bool-cases, Option-cases, All, arith,
}
use mathlib.Core.Path.{subst}
use sxn_spv.Common.Outcome.{Outcome, ok, err, panic}
use sxn_spv.Bitcoin.{Bitcoin, BlockHash}
use sxn_spv.Daemon.{Daemon, DaemonError, get_new_headers}
use sxn_spv.Store.{Db, Codec}
use sxn_spv.Store.Open.{Store, read_store}
use sxn_spv.Indexer.{SyncError, Round, daemon_error, sync_headers}
use sxn_spv.Indexer.Chains.{Injective, Proper}
use sxn_spv.Indexer.Node.{IsNode, get_new_headers-Seen}
use sxn_spv.Indexer.Written.{IsSynced}
use sxn_spv.Indexer.Round.{Outcomes, sync_headers-Recovers}
use sxn_spv.Indexer.Loop.{
  Poll, IndexerThread, after_first, first_round, after_round, polled, turn, turns, turns_from,
  start_indexer,
}

some-injective {ℓ} : {A : Type ℓ} {a b : A} → some a ≡ some b → a ≡ b
some-injective h = cc

module _ {bitcoin : Bitcoin} (codec : Codec bitcoin) (IsSeen : bitcoin.BlockHeader → Type 0) where
  -- A store that is in order is read from the database.
  abbrev pub Reads : Db → Type 0
  Reads db =
      (store : Store bitcoin) × (read_store codec db ≡ some (ok store))
      × IsSynced codec IsSeen store

  pub record IsInOrder (thread : IndexerThread bitcoin) : Type 0 where
    pub synced : thread.running ≡ true → IsSynced codec IsSeen thread.store
    pub reads : Reads thread.store.sync_db

  -- A store after a round, with what the round ended in.
  abbrev RoundEnds : Outcome SyncError (Unit {0}) × Store bitcoin → Type 0
  RoundEnds (ok _, store) = IsSynced codec IsSeen store × Reads store.sync_db
  RoundEnds (err _, store) = IsSynced codec IsSeen store × Reads store.sync_db
  RoundEnds (panic, store) = Reads store.sync_db

  module _ (injective : Injective bitcoin IsSeen) (proper : Proper bitcoin IsSeen) where
    Outcomes-RoundEnds :
        (best : BlockHash) (r : Outcome SyncError (Unit {0})) (store : Store bitcoin)
        → Reads store.sync_db
        → Outcomes codec IsSeen injective proper best r store
        → RoundEnds (r, store)
    Outcomes-RoundEnds best (ok _) store reads (inl (e, settled)) = (settled.1, reads)
    Outcomes-RoundEnds best (ok _) store reads (inr (inl (e, settled))) = (settled.1, reads)
    Outcomes-RoundEnds best (ok _) store reads (inr (inr e)) = absurd (ground (arith, e))
    Outcomes-RoundEnds best (err x) store reads (inl (e, settled)) = (settled.1, reads)
    Outcomes-RoundEnds best (err x) store reads (inr (inl (e, settled))) = (settled.1, reads)
    Outcomes-RoundEnds best (err x) store reads (inr (inr e)) = absurd (ground (arith, e))
    Outcomes-RoundEnds best panic store reads o = reads

    downloaded-RoundEnds :
        (fuel : ℕ) (node : Daemon bitcoin) (store : Store bitcoin) (best : BlockHash)
        (m : Option (Outcome DaemonError (List bitcoin.BlockHeader)))
        (ended : Outcome SyncError (Unit {0}) × Store bitcoin)
        → IsSynced codec IsSeen store
        → Reads store.sync_db
        → IsNode IsSeen node
        → get_new_headers node fuel store.sync_headers best ≡ m
        → sync_headers codec fuel node store best ≡ some ended
        → RoundEnds ended
    unfolding sync_headers
    downloaded-RoundEnds fuel node store best none ended s reads is_node got done =
        absurd (ground (arith, rw got at done))
    downloaded-RoundEnds fuel node store best (some (err e)) ended s reads is_node got done =
        let eq : (err (daemon_error e), store) ≡ ended = ground (arith, rw got at done) in
        subst RoundEnds eq (s, reads)
    downloaded-RoundEnds fuel node store best (some panic) ended s reads is_node got done =
        let eq : (panic, store) ≡ ended = ground (arith, rw got at done) in subst RoundEnds eq reads
    downloaded-RoundEnds fuel node store best (some (ok new)) ended s reads is_node got done =
        let seen = get_new_headers-Seen IsSeen node fuel store.sync_headers best new is_node got in
        let (r, store', done', (found, read, same, settled), outcome) =
          sync_headers-Recovers codec IsSeen injective proper fuel node store best new s
            is_node.honest got seen in
        let eq : (r, store') ≡ ended = some-injective (sym done' ∙ done) in
        subst RoundEnds eq (Outcomes-RoundEnds best r store' (found, read, settled.1) outcome)

    round_lem :
        (fuel : ℕ) (node : Daemon bitcoin) (store : Store bitcoin) (best : BlockHash)
        → IsSynced codec IsSeen store
        → Reads store.sync_db
        → IsNode IsSeen node
        → (ended : Outcome SyncError (Unit {0}) × Store bitcoin)
        → sync_headers codec fuel node store best ≡ some ended
        → RoundEnds ended
    round_lem fuel node store best s reads is_node ended done =
        downloaded-RoundEnds fuel node store best
          (get_new_headers node fuel store.sync_headers best) ended s reads is_node refl done

    after_round-IsInOrder :
        (thread thread' : IndexerThread bitcoin) (best : BlockHash) (m : Round codec)
        → ((ended : Outcome SyncError (Unit {0}) × Store bitcoin)
            → m ≡ some ended
            → RoundEnds ended)
        → after_round codec thread best m ≡ some thread'
        → IsInOrder thread'
    after_round-IsInOrder thread thread' best none ends done = absurd (ground (arith, done))
    after_round-IsInOrder thread thread' best (some (ok _, store)) ends done =
        let (synced, reads) = ends (ok _, store) refl in
        subst IsInOrder (some-injective done) (record { synced = λ h. synced; reads = reads })
    after_round-IsInOrder thread thread' best (some (err e, store)) ends done =
        let (synced, reads) = ends (err e, store) refl in
        subst IsInOrder (some-injective done) (record { synced = λ h. synced; reads = reads })
    after_round-IsInOrder thread thread' best (some (panic, store)) ends done =
        let reads = ends (panic, store) refl in
        subst IsInOrder (some-injective done) (record { synced = λ h. cc (h); reads = reads })

    after_first-IsInOrder :
        (thread' : IndexerThread bitcoin) (best : BlockHash) (m : Round codec)
        → ((ended : Outcome SyncError (Unit {0}) × Store bitcoin)
            → m ≡ some ended
            → RoundEnds ended)
        → after_first codec best m ≡ some thread'
        → IsInOrder thread'
    after_first-IsInOrder thread' best none ends done = absurd (ground (arith, done))
    after_first-IsInOrder thread' best (some (ok _, store)) ends done =
        let (synced, reads) = ends (ok _, store) refl in
        subst IsInOrder (some-injective done) (record { synced = λ h. synced; reads = reads })
    after_first-IsInOrder thread' best (some (err e, store)) ends done =
        let (synced, reads) = ends (err e, store) refl in
        subst IsInOrder (some-injective done) (record { synced = λ h. synced; reads = reads })
    after_first-IsInOrder thread' best (some (panic, store)) ends done =
        let reads = ends (panic, store) refl in
        subst IsInOrder (some-injective done) (record { synced = λ h. cc (h); reads = reads })

    polled-IsInOrder :
        (thread thread' : IndexerThread bitcoin) (poll : Poll bitcoin) (best : String ⊎ BlockHash)
        → IsInOrder thread
        → thread.running ≡ true
        → IsNode IsSeen poll.node
        → polled codec thread poll best ≡ some thread'
        → IsInOrder thread'
    polled-IsInOrder thread thread' poll (inl e) order running is_node done =
        subst IsInOrder (some-injective done) order
    polled-IsInOrder thread thread' poll (inr best) order running is_node done =
        elim (Bool-cases (best == thread.tip)) [
          | inl same ↦ subst IsInOrder (some-injective (rw (same, polled) at done)) order
          | inr other ↦
              after_round-IsInOrder thread thread' best
                (sync_headers codec poll.fuel poll.node thread.store best)
                (round_lem poll.fuel poll.node thread.store best (order.synced running) order.reads
                  is_node)
                (rw (other, polled) at done)
        ]

    first_round-IsInOrder :
        (store : Store bitcoin) (poll : Poll bitcoin) (best : String ⊎ BlockHash)
        (thread' : IndexerThread bitcoin)
        → IsSynced codec IsSeen store
        → Reads store.sync_db
        → IsNode IsSeen poll.node
        → first_round codec store poll best ≡ some thread'
        → IsInOrder thread'
    first_round-IsInOrder store poll (inl e) thread' synced reads is_node done =
        subst IsInOrder (some-injective done) (record { synced = λ h. synced; reads = reads })
    first_round-IsInOrder store poll (inr best) thread' synced reads is_node done =
        after_first-IsInOrder thread' best (sync_headers codec poll.fuel poll.node store best)
          (round_lem poll.fuel poll.node store best synced reads is_node) done

    turn-IsInOrder :
        (thread thread' : IndexerThread bitcoin) (poll : Poll bitcoin)
        → IsInOrder thread
        → IsNode IsSeen poll.node
        → turn codec thread poll ≡ some thread'
        → IsInOrder thread'
    unfolding turn
    turn-IsInOrder thread thread' poll order is_node done = elim (Bool-cases thread.running) [
      | inl running ↦
          polled-IsInOrder thread thread' poll poll.getbestblockhash order running is_node
            (rw (running, turn) at done)
      | inr stopped ↦ subst IsInOrder (some-injective (rw (stopped, turn) at done)) order
    ]

    turns-IsInOrder :
        (thread thread' : IndexerThread bitcoin) (polls : List (Poll bitcoin))
        → IsInOrder thread
        → All (λ poll. IsNode IsSeen poll.node) polls
        → turns codec thread polls ≡ some thread'
        → IsInOrder thread'
    unfolding turns
    turns-IsInOrder thread thread' [] order nodes done = subst IsInOrder (some-injective done) order
    turns-IsInOrder thread thread' (poll ∷ polls) order nodes done =
        elim (Option-cases (turn codec thread poll)) [
          | inl spent ↦ absurd (ground (arith, rw (spent, turns) at done))
          | inr (next, turned) ↦
              turns-IsInOrder next thread' polls
                (turn-IsInOrder thread next poll order nodes.0 turned) nodes.1
                (rw (turned, turns) at done)
        ]

    -- The indexer's thread, started on a store that is in order and can be read from its database, with nodes
    -- that give every hash its own header: after every number of turns, whatever the nodes answer otherwise,
    -- and also after a panic has ended the thread, a store that is in order is read from the database; and as
    -- long as the thread runs, the store in memory is in order.
    pub start_indexer-IsInOrder :
        (store : Store bitcoin) (poll : Poll bitcoin) (polls : List (Poll bitcoin))
        (thread' : IndexerThread bitcoin)
        → IsSynced codec IsSeen store
        → Reads store.sync_db
        → All (λ p. IsNode IsSeen p.node) (poll ∷ polls)
        → start_indexer codec store poll polls ≡ some thread'
        → IsInOrder thread'
    unfolding start_indexer
    start_indexer-IsInOrder store poll polls thread' synced reads nodes done =
        elim (Option-cases (first_round codec store poll poll.getbestblockhash)) [
          | inl spent ↦ absurd (ground (arith, rw (spent, turns_from) at done))
          | inr (thread, began) ↦
              turns-IsInOrder thread thread' polls
                (first_round-IsInOrder store poll poll.getbestblockhash thread synced reads nodes.0
                  began)
                nodes.1 (rw (began, turns_from) at done)
        ]

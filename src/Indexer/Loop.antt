-- ===== src/Indexer/Loop.antt =====
-- The thread of `start_indexer` in src/main.rs: a first round, and then one turn after the other. A turn sees
-- the block that the node calls its best, and the node. A panic ends the thread, and what it wrote stays. The
-- sleeps and the compaction change nothing that is modelled.
pub mod Invariant
use sxn_spv.Common.{
  ℕ, ◌⊎◌, inl, inr, String, Bool, true, false, Option, none, some, List, [], ◌∷◌, ◌==◌,
}
use sxn_spv.Common.Outcome.{Outcome, ok, err, panic}
use sxn_spv.Bitcoin.{Bitcoin, BlockHash}
use sxn_spv.Daemon.{Daemon}
use sxn_spv.Store.{Codec}
use sxn_spv.Store.Open.{Store}
use sxn_spv.Indexer.{SyncError, Round, sync_headers}

pub record Poll (bitcoin : Bitcoin) : Type 0 where
  pub getbestblockhash : String ⊎ BlockHash
  pub node : Daemon bitcoin
  pub fuel : ℕ

pub record IndexerThread (bitcoin : Bitcoin) : Type 0 where
  pub running : Bool
  pub tip : BlockHash
  pub store : Store bitcoin

module _ {bitcoin : Bitcoin} (codec : Codec bitcoin) where
  -- After the first round: an error is unwrapped.
  abbrev pub after_first : BlockHash → Round codec → Option (IndexerThread bitcoin)
  after_first tip none = none
  after_first tip (some (ok _, store)) = some (record { running = true; tip = tip; store = store })
  after_first tip (some (err e, store)) =
      some (record { running = false; tip = tip; store = store })
  after_first tip (some (panic, store)) =
      some (record { running = false; tip = tip; store = store })

  abbrev pub first_round :
      Store bitcoin → Poll bitcoin → String ⊎ BlockHash → Option (IndexerThread bitcoin)
  first_round store poll (inl e) = some (record { running = false; tip = 0; store = store })
  first_round store poll (inr tip) =
      after_first tip (sync_headers codec poll.fuel poll.node store tip)

  -- After a round of the loop: only success moves the tip.
  abbrev pub after_round :
      IndexerThread bitcoin → BlockHash → Round codec → Option (IndexerThread bitcoin)
  after_round thread current_tip none = none
  after_round thread current_tip (some (ok _, store)) =
      some (record { running = true; tip = current_tip; store = store })
  after_round thread current_tip (some (err e, store)) = some (record thread { store = store })
  after_round thread current_tip (some (panic, store)) =
      some (record thread { running = false; store = store })

  abbrev pub polled :
      IndexerThread bitcoin → Poll bitcoin → String ⊎ BlockHash → Option (IndexerThread bitcoin)
  polled thread poll (inl e) = some thread
  polled thread poll (inr current_tip) = elim (current_tip == thread.tip) [
    | true ↦ some thread
    | false ↦
        after_round thread current_tip
          (sync_headers codec poll.fuel poll.node thread.store current_tip)
  ]

  unfoldable pub turn : IndexerThread bitcoin → Poll bitcoin → Option (IndexerThread bitcoin)
  turn thread poll = elim thread.running [
    | true ↦ polled thread poll poll.getbestblockhash
    | false ↦ some thread
  ]

  unfoldable pub turns :
      IndexerThread bitcoin → List (Poll bitcoin) → Option (IndexerThread bitcoin)
  turns thread [] = some thread
  turns thread (poll ∷ polls) = elim (turn thread poll) [
    | none ↦ none
    | some thread' ↦ turns thread' polls
  ]

  abbrev pub turns_from :
      Option (IndexerThread bitcoin) → List (Poll bitcoin) → Option (IndexerThread bitcoin)
  turns_from none polls = none
  turns_from (some thread) polls = turns thread polls

  unfoldable pub start_indexer :
      Store bitcoin → Poll bitcoin → List (Poll bitcoin) → Option (IndexerThread bitcoin)
  start_indexer store poll polls = turns_from (first_round store poll poll.getbestblockhash) polls

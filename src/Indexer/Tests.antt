-- ===== src/Indexer/Tests.antt =====
-- The indexer on a node with two blocks, from an empty database.
use sxn_spv.Common.{
  ℕ, suc, ◌≡◌, ◌⊎◌, inl, inr, refl, String, true, some, List, [], ◌∷◌, ◌==◌, ==_iff, if◌then◌else◌,
  All, arith,
}
use mathlib.Core.Path.{subst}
use sxn_spv.Common.Outcome.{Outcome, ok, panic}
use sxn_spv.Common.HashMap
use sxn_spv.Header
use sxn_spv.Header.{HeaderList}
use sxn_spv.Daemon.{
  Daemon, range_from, chunks, download, assert_chain, get_all_headers, get_new_headers,
}
use sxn_spv.Store.{DbRow, get, put, write}
use sxn_spv.Store.Put.{get-put}
use sxn_spv.Store.Sample.{Block, test_bitcoin, test_codec}
use sxn_spv.Store.Open.{Store, compatibility_bytes, open_store}
use sxn_spv.Indexer.{SyncError, write_chunks, sync_headers}
use sxn_spv.Indexer.Chunks.{write_chunks-chunks}
use sxn_spv.Indexer.Node.{IsNode}
use sxn_spv.Indexer.Written.{IsSynced, IsSettled, Recovers}
use sxn_spv.Indexer.Round.{Outcomes, sync_headers-Recovers}
use sxn_spv.Indexer.Fresh.{sync_headers-fresh}
use sxn_spv.Indexer.Loop.{Poll, IndexerThread, after_first, turn, turns, turns_from, start_indexer}
use sxn_spv.Indexer.Loop.Invariant.{IsInOrder, start_indexer-IsInOrder}
use sxn_spv.Indexer.Opened.{new_store, open_store-empty, sync_headers-open_store}

-- The hash of a block is one more than the hash before it.
abbrev IsSeen : Block → Type 0
IsSeen b = b.1 ≡ suc b.0

abbrev header_for : ℕ → String ⊎ Block
header_for h = if h == 1 then inr (0, 1) else if h == 2 then inr (1, 2) else inl "no such block"

abbrev two_blocks : List Block
two_blocks = (0, 1) ∷ (1, 2) ∷ []

abbrev node : Daemon test_bitcoin
node = record {
  block_height = λ h. inr (some 1);
  getblockheaders = λ heights. inr two_blocks;
  getblockheader = header_for;
}

injective : (x y : Block) → IsSeen x → IsSeen y → x.1 ≡ y.1 → x ≡ y
injective (a, b) (c, d) seen seen' same = ground (arith, seen, seen', same)

proper : (x : Block) → IsSeen x → ¬ (x.1 ≡ 0)
proper x seen null = omega (arith, seen, null)

right-injective : {A B : Type 0} {a b : B} → ◌≡◌ {A = A ⊎ B} (inr a) (inr b) → a ≡ b
right-injective h = cc

seen : All IsSeen two_blocks
seen = (refl, (refl, tt))

node-IsNode : IsNode {bitcoin = test_bitcoin} IsSeen node
node-IsNode = record {
  honest = λ h x got. ground (arith, got, ==_iff h 1, ==_iff h 2);
  seen = λ h x got. ground (arith, got);
  all_seen = λ heights xs got. subst (All IsSeen) (right-injective got) seen;
}

program : Unit {0}
unfolding range_from chunks download assert_chain get_all_headers get_new_headers Header.is_empty
    HashMap.get
program = tt

abbrev start : Store test_bitcoin
start = new_store test_codec

start-IsSynced : IsSynced test_codec IsSeen start
start-IsSynced = (open_store-empty test_codec IsSeen).1

found : get_new_headers node 3 start.sync_headers 2 ≡ some (ok two_blocks)
unfolding program
found = refl

sync_headers-Recovers_example :
    (r : Outcome SyncError (Unit {0})) × (store' : Store test_bitcoin) × (sync_headers test_codec 3
        node start 2
      ≡ some (r, store'))
    × Recovers test_codec IsSeen 2 store'.sync_db
    × Outcomes test_codec IsSeen injective proper 2 r store'
sync_headers-Recovers_example =
    sync_headers-Recovers test_codec IsSeen injective proper 3 node start 2 two_blocks
      start-IsSynced node-IsNode.honest found seen

fresh_run :
    (store' : Store test_bitcoin) × (sync_headers test_codec 3 node start 2 ≡ some (ok tt, store'))
    × IsSettled test_codec IsSeen 2 store'
fresh_run =
    sync_headers-fresh test_codec IsSeen injective proper 3 node start 2 (0, 1) ((1, 2) ∷ [])
      start-IsSynced node-IsNode.honest found seen (refl, (refl, tt))

sync_headers-fresh_example :
    (store' : Store test_bitcoin) × (sync_headers test_codec 3 node start 2 ≡ some (ok tt, store'))
    × IsSettled test_codec IsSeen 2 store'
sync_headers-fresh_example =
    sync_headers-fresh test_codec IsSeen injective proper 3 node start 2 (0, 1) ((1, 2) ∷ [])
      start-IsSynced node-IsNode.honest found seen (refl, (refl, tt))

abbrev poll : Poll test_bitcoin
poll = record { getbestblockhash = inr 2; node = node; fuel = 3 }

-- A turn in which the node does not answer.
abbrev silent : Poll test_bitcoin
silent = record { getbestblockhash = inl "no answer"; node = node; fuel = 3 }

abbrev the_end : IndexerThread test_bitcoin
the_end = record { running = true; tip = 2; store = fresh_run.0 }

ends : start_indexer test_codec start poll (silent ∷ poll ∷ []) ≡ some the_end
unfolding start_indexer turns turn
ends = rw (fresh_run.1, turns_from, after_first) refl

start_indexer-IsInOrder_example : IsInOrder test_codec IsSeen the_end
start_indexer-IsInOrder_example =
    start_indexer-IsInOrder test_codec IsSeen injective proper start poll (silent ∷ poll ∷ [])
      the_end start-IsSynced (open_store-empty test_codec IsSeen).2
      (node-IsNode, (node-IsNode, (node-IsNode, tt))) ends

-- The version before.
abbrev version_one : List ℕ
version_one = 1 ∷ 0 ∷ 0 ∷ 0 ∷ []

sync_headers-open_store_example :
    (r : Outcome SyncError (Unit {0})) × (left : Store test_bitcoin) × (found : Store test_bitcoin)
    × (sync_headers test_codec 3 node start 2 ≡ some (r, left))
    × (get test_codec left.sync_db (86 ∷ []) ≡ some compatibility_bytes)
    × (open_store test_codec left.sync_db ≡ some (ok found))
    × (found.sync_db ≡ left.sync_db)
    × IsSettled test_codec IsSeen 2 found
    × (open_store test_codec (put test_codec left.sync_db (86 ∷ []) version_one) ≡ some panic)
sync_headers-open_store_example =
    sync_headers-open_store test_codec IsSeen injective proper 3 node start 2 two_blocks version_one
      start-IsSynced (get-put test_codec [] (86 ∷ []) (86 ∷ []) compatibility_bytes)
      node-IsNode.honest found seen (λ same. ground (arith, same))

abbrev rows : List DbRow
rows = (1 ∷ [], 2 ∷ []) ∷ (3 ∷ [], 4 ∷ []) ∷ (1 ∷ [], 5 ∷ []) ∷ []

write_chunks-chunks_example :
    write_chunks test_codec [] (chunks 3 2 rows) ≡ write test_codec [] rows
write_chunks-chunks_example = write_chunks-chunks test_codec [] 3 2 rows (omega arith) (omega arith)

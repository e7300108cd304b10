-- ===== src/Lib.antt =====
-- A verification library for sxn-spv, a light client that answers questions about Bitcoin, Dogecoin,
-- Ethereum, Optimism and Solana after it has checked the answers.
--
-- The parts of the program that are modelled:
--
--   src/header.rs, in Bitcoin.antt and Header.antt. `HeaderList` is the chain of headers with the map
--   from hashes to heights and the tip. `new`, `order`, `apply`, `header_by_blockhash`,
--   `header_by_height`, `tip`, `is_empty` and `get_mtp` (Header/MedianTime.antt) are functions of the
--   same names. What the methods change through `&mut self` is the list that they return; a failed
--   assertion, an index out of range and a failed `unwrap` are `panic`. Header/Chain.antt has the
--   links of a chain, Header/Apply.antt and Header/Invariant.antt the calls of `apply`,
--   Header/Order.antt those of `order`, Header/Walk.antt and Header/Rebuild.antt those of `new`,
--   Header/Lookup.antt the lookup by hash.
--
--   `SimpleCache` of src/utils.rs, in Cache.antt and Cache/Laws.antt. Each operation holds the lock
--   of the map, so it is one step from a cache to the next.
--
--   src/chains/sol.rs, in Sol.antt. A public call (Sol/Judge.antt) asks the judge node, sends a task
--   to the dispatcher, and compares. The dispatcher (Sol/Collect.antt) broadcasts the task to the
--   workers (Sol/Worker.antt), one for each node, collects their answers, and makes one answer of
--   them (Sol/Votes.antt). Sol/Types.antt has the messages and errors, and Sol/Start.antt what the
--   client starts with: the different urls, their number and their health.
--
--   src/btcrpc/mod.rs, src/btcrpc/proof.rs and src/chainstate.rs, in BtcRpc.antt.
--   BtcRpc/Handlers.antt has the three methods, BtcRpc/Requests.antt a request and a batch,
--   BtcRpc/Entry.antt how requests are read and the entry points, BtcRpc/ChainState.antt the check of
--   a Merkle proof. The Bitcoin and the Dogecoin client share one cache, which each handler takes and
--   returns.
--
--   src/ethrpc/mod.rs, in EthRpc.antt: the handlers for Ethereum (EthRpc/Handlers.antt) and for
--   Optimism (EthRpc/Optimism.antt), the entry points (EthRpc/Server.antt), and a server without a
--   cache to compare with (EthRpc/Uncached.antt, EthRpc/Cached.antt).
--
--   src/solrpc/mod.rs, in SolRpc.antt: the parameters (SolRpc/Params.antt), the handlers
--   (SolRpc/Handlers.antt) and the entry point (SolRpc/Server.antt), over the calls of the Solana
--   client, which the judge's calls of Sol/Judge.antt fill in SolRpc/Nodes.antt, over the vote of
--   Sol/Collect.antt for transactions. JsonRpc.antt has the JSON values and the cache of responses of
--   Ethereum, Optimism and Solana. It is the cache of Bitcoin and Dogecoin as well, which
--   BtcRpc.antt has with values of its own; SolRpc/Judged.antt lets other handlers write to it.
--
--   src/types.rs, src/config.rs and src/server.rs, in Server.antt: the names and chain ids of
--   networks (Server/Network.antt), the services that the start filter switches on, and the check
--   that every request passes (Server/Services.antt). Server/Start.antt is `main` of src/main.rs up
--   to the server, which makes a client for each service that is on, and Server/Status.antt the
--   status page.
--
--   src/daemon.rs, in Daemon.antt. Daemon/Reply.antt has the reading of one JSON-RPC reply,
--   Daemon/Batch.antt the batches of requests with the counter of the messages, Daemon/Decode.antt
--   the headers and the Merkle blocks that are read from hex texts, Daemon/Client.antt the calls.
--   `get_all_headers` and `get_new_headers` stand in Daemon.antt over the requests that they make to
--   a node (the record `Daemon`, functions of heights and hashes). Daemon/NewHeaders.antt leads from
--   the node's answers over `order` and `apply` to the new tip.
--
--   src/store.rs, in Store.antt: the sealed rows of the database, scans by a prefix
--   (Store/Scan.antt), the map of headers that is loaded (Store/Load.antt), and the list that is read
--   back, before and after the tip was written (Store/Reopen.antt, Store/Synced.antt).
--   Store/Open.antt has the version, `open` and `reload_store`.
--
--   src/index.rs, in Indexer.antt. A round, `sync_headers`, takes the store (database, set of hashes,
--   list of headers) and a node, and returns the store that it leaves with what it ended in; a panic
--   leaves what was written before it. Indexer/Loop.antt is the thread of `start_indexer` of
--   src/main.rs (which is marked as dead code there), as a run over a list of polls of the node.
--   Indexer/Chains.antt, Indexer/Ready.antt and Indexer/Written.antt lead to what a round leaves
--   (Indexer/Round.antt, Indexer/Fresh.antt); Indexer/Version.antt and Indexer/Opened.antt are about
--   `open` at the next start, and Indexer/Checked.antt about the round that asserts the tip.
--
-- Common.antt and its children hold what the parts share: tests and lists over the native numbers,
-- outcomes of fallible code, keys with an equality or an order, hash maps and ordered maps as
-- association lists, counting, and sorting.
--
-- Bounds and fuel. The loop of `HeaderList::new` runs on fuel, one more than there are headers in the
-- map; every round takes a header out of the map, so this is enough. The loop of `get_new_headers`
-- follows the node's answers, and has an end only where these lead down; its fuel is an argument, and
-- more than the depth of the tip is enough. A batch of requests is cut into at most as many pieces as
-- it has requests. Every other loop is a structural recursion. Heights and times are natural numbers:
-- no code of the modelled parts adds to a machine integer beyond the length of a vector; where a
-- `u64` is parsed or a `U256` cut, the bound is written out. `get_mtp` subtracts one from the length
-- of the list, which is a `panic` on the empty list. A hash is a number. An unordered set or map is a
-- list in some order.
--
-- What is taken from libraries: the headers and hashes of the `bitcoin` crate (the record `Bitcoin`),
-- the types of the Solana crates (the record `Solana`), the light clients (the record `Handle`), JSON
-- values (`BtcRpc.Types.Json`, `JsonRpc.Json`, and `Rpc` for the daemon), the decoders of blocks
-- (`Encodings`), the texts and bytes of hashes (`Hashes`), Merkle blocks (`Merkle`), the hashes and
-- filters of alloy (`Alloy`) and the clients of helios (`EthRpc.Types.Client`), how Solana's types
-- are read and written (`SolanaJson`, whose signatures have 64 bytes), how JSON objects are read as
-- requests (`Members`), a node that answers the requests that it accepts in order (`Answering`), the encodings and the sealing of rows (`Codec`), JSON texts
-- and their parser (the record `Serde`, whose law is that a text is parsed back to what it was made
-- of), and the RPC clients (the record `Node`). A loop that waits on a channel reads a list of turns,
-- each a wait of a second without a message, or a message with the seconds since the start.
--
-- Not modelled: threads, tasks and sockets; the routes of the HTTP server; the options of the
-- database; the check of headers by other services; what the light clients of Ethereum and Optimism
-- check; the spawn of the Solana client's tasks; the logs; `HeaderList::equals`, `HeaderList::iter`,
-- `HeaderList::len` and the texts for debugging.
pub mod Common
pub mod Bitcoin
pub mod Header
pub mod Cache
pub mod Sol
pub mod BtcRpc
pub mod Server
pub mod Daemon
pub mod Store
pub mod Indexer
pub mod JsonRpc
pub mod EthRpc
pub mod SolRpc

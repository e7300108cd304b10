-- ===== src/SolRpc.antt =====
-- src/solrpc/mod.rs: the calls of the Solana client of src/chains/sol.rs, and the cache of transactions.
pub mod Types
pub mod Params
pub mod Handlers
pub mod Answers
pub mod Nodes
pub mod Judged
pub mod Config
pub mod Server
mod Tests

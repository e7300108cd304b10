-- ===== src/EthRpc.antt =====
-- src/ethrpc/mod.rs: the calls of the Ethereum and the Optimism light client, and the cache of receipts.
pub mod Types
pub mod Handlers
pub mod Optimism
pub mod Uncached
pub mod Cached
pub mod Server
mod Tests

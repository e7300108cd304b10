-- ===== src/BtcRpc.antt =====
-- The Bitcoin and Dogecoin side of the server: the handlers of src/btcrpc, and the proof check of
-- src/chainstate.rs, over the light clients and the cache of responses that they share.
pub mod Types
pub mod Handlers
pub mod Requests
pub mod ChainState
pub mod Faithful
pub mod Soundness
pub mod Confusion
pub mod Entry
pub mod Ids
pub mod Sample
mod Tests

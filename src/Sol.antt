-- ===== src/Sol.antt =====
-- src/chains/sol.rs: a request is answered by every extra RPC node, the answers are put to the vote,
-- and the outcome is held against the answer of the judge node.
pub mod Types
pub mod Votes
pub mod Collect
pub mod Worker
pub mod Judge
pub mod Start
pub mod Sample
mod Tests

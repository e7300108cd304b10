-- ===== src/Server.antt =====
-- The names of networks (src/types.rs), the services that a start filter switches on (src/config.rs), and
-- the check that every request passes (src/server.rs).
pub mod Network
pub mod Services
pub mod Start
pub mod Clients
pub mod Status
mod Tests

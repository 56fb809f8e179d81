-- ===== src/Tests.antt =====
-- Runs of the models on concrete inputs.
pub mod Service
pub mod Sessions
pub mod Tunnel
pub mod Approvals
pub mod Browsing
pub mod Clients
pub mod Requests
pub mod Output
pub mod Widgets
pub mod Settings
pub mod Ledgers

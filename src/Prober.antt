-- ===== src/Prober.antt =====
-- The prober (prober/prober): what it remembers of the nodes of its region, and its HTTP interface.
pub mod State
pub mod Readiness
pub mod Polling
pub mod Server

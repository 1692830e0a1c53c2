-- ===== src/Contracts.antt =====
-- The types and checks that components exchange, src/contracts.
pub mod Verdict
pub mod Tools

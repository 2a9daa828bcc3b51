-- ===== src/Remediation.antt =====
-- src/hoursx/remediation: guarded changes to the host, their post-conditions and their ledger.
pub mod Conditions
pub mod Ledger
pub mod Guard
pub mod History
pub mod Tests

-- ===== src/Conn/Receive.antt =====
-- Receiving records: readFromUntil, readRecordOrCCS and retryReadRecord of conn.go, and what they
-- promise.
pub mod Errors
pub mod Fetch
pub mod Deliver
pub mod Loop
pub mod Fetching
pub mod Steps
pub mod Rounds
pub mod Contract
pub mod Termination

-- ===== src/Record.antt =====
-- The record layer: conn.go.
pub mod Seq
pub mod Padding
pub mod HalfConn
pub mod Protect

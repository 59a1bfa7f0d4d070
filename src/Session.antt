-- ===== src/Session.antt =====
-- Sessions: what tickets hold and how they are protected (ticket.go), and the cache of the client
-- (common.go).
pub mod State
pub mod Ticket
pub mod Cache

-- ===== src/Tests.antt =====
-- Tests and examples on concrete data, a module for each part of the program.
mod Data
mod BigEndian
mod OfRecord
mod OfConn
mod OfClosing
mod OfKtls
mod OfNegotiation
mod OfMessages
mod OfSession
mod OfSignatures

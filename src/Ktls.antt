-- ===== src/Ktls.antt =====
-- Kernel TLS: ktls.go, ktls_linux.go, ktls_cipher_linux.go and ktls_io.go.
pub mod Release
pub mod Features
pub mod Socket
pub mod CryptoInfo
pub mod Enable
pub mod Read

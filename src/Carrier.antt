-- ===== src/Carrier.antt =====
-- internal/core/carrier: DATA records (record.go) and the hidden IPv6 envelope (envelope.go).
pub mod Errors
pub mod Record
pub mod Envelope

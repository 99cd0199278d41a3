-- ===== src/Protocol.antt =====
-- The wire vocabulary that a client and the module share, crates/dma-libfabric-protocol/src, and
-- the module's commands that are written in it, crates/module/src/entry.rs. Bytes are numbers
-- below 256.
pub mod Hex
pub mod Decimal
pub mod Advertisement
mod Tests

-- ===== src/Transfer.antt =====
-- frontend/src/lib/engines/transfer.ts: the file transfer coordinator.
pub mod Chunk
pub mod State
pub mod Receive
pub mod Overlap
pub mod Send
pub mod Offer
pub mod Control
pub mod EndToEnd
pub mod Whole
pub mod Handshake
pub mod Acceptance
pub mod Tests

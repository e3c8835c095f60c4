-- ===== src/RoomStore/Tests.antt =====
-- Runs of the store of the room.
pub mod Samples
mod Peers
mod Runs
mod Exchange
mod Chats

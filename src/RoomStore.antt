-- ===== src/RoomStore.antt =====
-- frontend/src/stores/roomStore.ts: the store of the room.
pub mod State
pub mod Basics
pub mod Events
pub mod Files
pub mod Keys
pub mod Chat
pub mod Inbox
pub mod Turn
pub mod Peers
pub mod Setup
pub mod Listeners
pub mod Controls
pub mod Session
pub mod Updates
pub mod Advance
pub mod Queueing
pub mod Finalized
pub mod Arrival
pub mod History
pub mod Merge
pub mod Retries
pub mod Broadcast
pub mod Receiving
pub mod Delivery
pub mod Roles
pub mod Steps
pub mod Sound
pub mod LifeCycle
pub mod Rekey
pub mod Agreement
pub mod Leaving
pub mod Unsent
pub mod Cancelled
pub mod Tests

-- ===== src/Realtime.antt =====
-- runtime/src/frappe_runtime: the realtime server, from a connection to the rooms that it listens in.
pub mod Site
pub mod Args
pub mod Auth
pub mod Checks
pub mod Dispatch
pub mod Socket
pub mod Handlers
pub mod Bridge
pub mod Rooms
pub mod Listens
pub mod Kept
pub mod Reach
pub mod Private
pub mod Viewers
mod Tests
mod InMemory
mod RoomTests

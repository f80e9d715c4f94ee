-- ===== src/Matching.antt =====
-- Matchmaking rooms: src/matching_types.h, src/matching.h and src/cmd_matching.cpp.
pub mod Types
pub mod Slots
pub mod SlotCounts
pub mod Room
pub mod Members
pub mod Keyed
pub mod Rooms
pub mod RoomMap
pub mod Leaving
pub mod Joining
pub mod Kicking
pub mod Invariant
pub mod Search
pub mod Worlds
pub mod Settings
pub mod Messages
pub mod Listings
mod Examples
pub mod Session
pub mod Leave
pub mod Create
pub mod Join
pub mod Kick

-- ===== src/Game.antt =====
-- The game server: its geometry, its entities, and the rules of a match.
pub mod Vector
pub mod Player
pub mod Message
pub mod Attack
pub mod Spawner
pub mod Aura
pub mod Session
pub mod Collection
pub mod Match
pub mod Area
pub mod Lobby
pub mod Ai

-- ===== src/Protocol.antt =====
-- The messages of the server: their opcodes, the buffer that one is written into, and the fields
-- that each of them writes.
pub mod Opcodes
pub mod Outgoing

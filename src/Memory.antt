-- ===== src/Memory.antt =====
-- Connection/Connection/Memory: byte buffers and the streams over them.
pub mod Bytes
pub mod Exception
pub mod Stream
pub mod StreamLaws
pub mod Buffer
mod Tests

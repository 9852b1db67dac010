-- ===== src/Network.antt =====
-- Connection/Connection/Network: the buffers of a connection, what it reads and what it writes.
pub mod Threads
pub mod Buffer
pub mod Framing
pub mod Receive
pub mod Send

-- ===== src/Telnet.antt =====
-- The telnet handler of src/net/telnet.cc and include/net/telnet.h: its output and its input.
pub mod Handler
pub mod Chunk
pub mod Stream
pub mod Input
pub mod Session
pub mod Examples

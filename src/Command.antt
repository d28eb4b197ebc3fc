-- ===== src/Command.antt =====
-- src/mud/command.cc, include/mud/command.h: how a line of input finds its command.
pub mod Words
pub mod Format
pub mod Match
pub mod Order
pub mod Dispatch
pub mod Examples

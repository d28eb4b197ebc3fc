-- ===== src/ObjFile.antt =====
-- src/mud/fileobj.cc and include/mud/fileobj.h: the format of object files, its reader and its writer.
-- A file is the list of its bytes.
pub mod Outcome
pub mod Reader
pub mod Nodes
pub mod Writer
pub mod Tokens
pub mod Lines
pub mod Lists
pub mod Blocks
pub mod Contents
pub mod Texts
pub mod Reads
pub mod RoundTrip
pub mod Ends
pub mod Gets
pub mod Termination
pub mod Object
pub mod Streams
pub mod Examples

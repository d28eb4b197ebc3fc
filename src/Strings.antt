-- ===== src/Strings.antt =====
-- src/common/strings.cc: tests, cutting and joining of text.
pub mod Chars
pub mod Check
pub mod Split
pub mod Strip
pub mod Phrase
pub mod Path
pub mod Numbers
pub mod Examples

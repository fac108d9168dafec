-- ===== src/Str.antt =====
-- src/stdlib/string.c: the routines over bytes in memory, and those over strings.
pub mod Memory
pub mod Copy
pub mod Strings
pub mod Digits
pub mod Texts
mod Tests

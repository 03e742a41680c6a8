-- ===== src/Steamcmd.antt =====
-- driver/steamcmd.go: running steamcmd and reading what it prints.
pub mod Patterns
pub mod Args
pub mod Lines
pub mod Reader
pub mod Install
pub mod Streams
pub mod Repair

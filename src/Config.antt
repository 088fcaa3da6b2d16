-- ===== src/Config.antt =====
-- Config.hpp and Config.cpp: the settings, how they are read from files and written, and which
-- values are refused.
mod Types
pub mod Yaml
pub mod Validate
pub mod Files
pub mod Sections
pub mod Settings
pub mod Writes
pub mod RoundTrip
pub mod Dump
unfoldable pub use Types.*

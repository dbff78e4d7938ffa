-- ===== src/Nixgen.antt =====
-- crates/nixgen: strings and attribute names of Nix code, and percent escapes, as they are written
-- and read.
pub mod Write
pub mod Read
pub mod RoundTrip
pub mod Keys
pub mod Literals
pub mod Percent
pub mod Examples

-- ===== src/Helper.antt =====
-- crates/neon-helper/src: trees from flat records, signing strings, form encoding and sizes.
pub mod Tree
pub mod Sign
pub mod Zip
mod Tests

-- ===== src/Crypto.antt =====
-- crates/neon-crypto: padding, results of encryption, and the AES and DES wrappers.
pub mod Padding
pub mod Cipher
pub mod Aes
pub mod Des
mod Tests

-- ===== src/Sha512.antt =====
-- exercises/sha512/sha512.c and sha512.h, the SHA-512 of BoringSSL, on a little-endian host.
pub mod Words
pub mod Constants
pub mod Rounds
pub mod Context
pub mod Blocks
pub mod Spec
pub mod Streaming
pub mod Padding
pub mod Digest
mod Tests

-- ===== src/Chacha.antt =====
-- examples/chacha20/chacha20.c: the block function and the stream cipher. `unsigned char` is 8
-- bits, `unsigned int` 32 and `unsigned long long` 64.
pub mod Block
pub mod Stream
pub mod Laws
pub mod Keystream
pub mod Words
pub mod Vectors
pub mod Driver
pub mod Selftest
mod Tests

-- ===== src/Crypto.antt =====
-- internal/crypto: the client's cryptography. `Aead` is what it takes from the standard library;
-- `Padding` is the padding of the metadata envelope.
pub mod Aead
pub mod Padding
pub mod Content
mod Tests

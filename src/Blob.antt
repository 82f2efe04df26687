-- ===== src/Blob.antt =====
-- internal/blob: the ciphertext store. `Names` are the identifiers and paths, `Files` the filesystem
-- backend with its spool, `Counter` and `Shredder` the encryption at rest.
pub mod Names
pub mod Files
pub mod Uploading
pub mod Counter
pub mod Octets
pub mod Shredder
pub mod Shredding
pub mod Objects
pub mod Multipart
pub mod Listing
pub mod Filling
pub mod Assembly
pub mod Publishing
pub mod Memory
mod Tests

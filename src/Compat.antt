-- ===== src/Compat.antt =====
-- internal/compat and internal/store/compat.go: the third-party protocol, over the same stores.
pub mod Rows
pub mod Auth
pub mod Receiving
pub mod Serving
pub mod Lookup
pub mod Granting
pub mod Replay
pub mod Sound
pub mod Running
pub mod Keeping
pub mod Invariant
pub mod Transfer
pub mod Fetching
pub mod Delivery
pub mod Cleanup
pub mod Counting
pub mod Protecting
mod Tests

-- ===== src/Store.antt =====
-- internal/store: the metadata store. `Upload` is the record and its checks, `Table` the SQLite
-- backend; the other children hold the theorems about them.
pub mod Upload
pub mod Table
pub mod Lookup
pub mod Dead
pub mod Reading
pub mod Writing
pub mod Soundness
pub mod Invariant
pub mod MasterKey
mod Tests

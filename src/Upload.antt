-- ===== src/Upload.antt =====
-- internal/upload: the lifecycle of an upload, over the metadata store, the blob store and the limiter
-- of password attempts. `Attempts` is what it needs of the limiter; `Service` is the state and the
-- operations of upload.go, auth.go and metadata.go, `Request` and `Tus` those of tusstore.go; the
-- other children hold the theorems.
pub mod Attempts
pub mod Policy
pub mod Service
pub mod Request
pub mod Tus
pub mod Deletion
pub mod Sweep
pub mod Access
pub mod Creation
pub mod Lifecycle
mod Tests

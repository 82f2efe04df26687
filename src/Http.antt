-- ===== src/Http.antt =====
-- internal/httpapi: the parts of the HTTP layer that do more than call the service.
pub mod ClientAddr
pub mod Forwarding
mod Tests

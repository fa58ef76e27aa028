-- ===== src/Http.antt =====
-- Requests (src/worker/http): the bounded reading of their bodies.
pub mod RequestBody
mod Tests

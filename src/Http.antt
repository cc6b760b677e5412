-- ===== src/Http.antt =====
-- internal/http: the transport that repeats requests.
pub mod Retry

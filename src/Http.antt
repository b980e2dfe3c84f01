-- ===== src/Http.antt =====
-- internal/httpapi: the HTTP layer over the use cases.
pub mod Message
pub mod Params
pub mod Json
pub mod Limiter
pub mod Middleware
pub mod Handlers
pub mod Server

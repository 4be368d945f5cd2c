-- ===== src/Api.antt =====
-- internal/api: the responses, the handlers (handlers.go) and the two middlewares (middleware.go).
pub mod Date
pub mod View
pub mod Json
pub mod Wire
pub mod Handlers
pub mod Middleware
mod Tests

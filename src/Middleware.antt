-- ===== src/Middleware.antt =====
-- backend/middleware: what stands in front of the routes, but for the rate limiter.
pub mod BodyLimit

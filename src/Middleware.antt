-- ===== src/Middleware.antt =====
-- app/middleware: what stands before the routes.
pub mod RateLimit
pub mod Auth

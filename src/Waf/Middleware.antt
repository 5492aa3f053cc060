-- ===== src/Waf/Middleware.antt =====
-- The middleware, which makes a service for every request.

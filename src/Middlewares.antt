-- ===== src/Middlewares.antt =====
-- middlewares: the handlers of the proxy that change a request, repeat it or refuse it.
pub mod Rewrite
pub mod Retry
pub mod ErrorPages

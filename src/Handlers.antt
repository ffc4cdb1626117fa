-- ===== src/Handlers.antt =====
-- src/handlers: the handlers of the three routes.
pub mod Exchange
pub mod Probes

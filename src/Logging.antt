-- ===== src/Logging.antt =====
-- src/logging: the export of audit events.
pub mod Splunk

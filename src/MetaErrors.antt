-- ===== src/MetaErrors.antt =====
-- The log of Meta's errors (src/meta-error-logs).
pub mod Extractor
pub mod Logs

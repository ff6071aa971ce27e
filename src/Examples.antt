-- ===== src/Examples.antt =====
-- Concrete services, and each theorem on a concrete input.
pub mod Encoding
pub mod Deliveries
pub mod Requests
pub mod Registries
pub mod Tables
pub mod Letters
pub mod Errors
pub mod Queues
pub mod Callbacks
pub mod Excecoes
pub mod Metrics
pub mod Secrets

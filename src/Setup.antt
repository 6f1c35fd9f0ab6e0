-- ===== src/Setup.antt =====
-- What the process reads of its environment when it starts, and the identifiers of its log lines.
pub mod Log
pub mod Redis
pub mod Telemetry
pub mod Audited
pub mod Cors
pub mod Start
pub mod Sampler
pub mod Providers

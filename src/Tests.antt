-- ===== src/Tests.antt =====
-- Runs of the program on outside systems in memory.
pub mod Memory
mod Sessions
mod Profiles
pub mod Caches
pub mod Callbacks
mod Callers
mod Tokens
pub mod Userinfos
pub mod Registrations
mod Texts
mod Exchanges
mod Routes
mod Servers
mod Starts
mod Overlaps
mod Deliveries
mod Markets

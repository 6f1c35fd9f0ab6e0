-- ===== src/Access.antt =====
-- common/auth: the identity that a request carries and the guards of the routes.
pub mod Http
pub mod Roles
pub mod Guards
pub mod Internal

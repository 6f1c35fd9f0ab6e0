-- ===== src/Auth.antt =====
-- server/auth and the handler AuthForward: Clerk tokens and the identity headers made of them.
pub mod Jwks
pub mod Token
pub mod Forward

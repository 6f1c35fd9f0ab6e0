-- ===== src/Api.antt =====
-- server/http/api: the handlers, behind the guards that router.go puts before them.
pub mod Outage
pub mod Common
pub mod UserProfile
pub mod KycLogin
pub mod Login
pub mod Respond

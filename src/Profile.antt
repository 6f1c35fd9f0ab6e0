-- ===== src/Profile.antt =====
-- server/service/user_profile_service.go with the markets and languages of server/http/data.
pub mod Options
pub mod Update
pub mod Cache
pub mod Service

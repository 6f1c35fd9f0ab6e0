-- ===== src/Registration.antt =====
-- The Clerk webhook: server/http/data/clerk_callback_data.go, server/service/user_mapping_service.go
-- and server/http/api/clerk_callback.go.
pub mod ClerkData
pub mod Service
pub mod Webhook

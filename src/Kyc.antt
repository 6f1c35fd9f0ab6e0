-- ===== src/Kyc.antt =====
-- server/service/kyc_state_store.go and kyc_service.go.
pub mod Store
pub mod Email
pub mod Prefix
pub mod Service
pub mod Trusted

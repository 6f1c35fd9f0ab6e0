-- ===== src/Proxy.antt =====
-- server/proxy: what the KYC service asks of Singpass.
pub mod Remote
pub mod Oauth
pub mod Keys
pub mod Exchange
pub mod Userinfo

-- ===== src/Auth.antt =====
-- src/auth: the cache of the keys of the identity provider, and the signing keys.
pub mod Jwks
pub mod Signing

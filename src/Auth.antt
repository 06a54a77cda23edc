-- ===== src/Auth.antt =====
-- Client tokens, pkg/auth: what a token permits, and the choice of the verifier of a tenant.
pub mod Tenants
pub mod Claims
pub mod Config
mod Examples

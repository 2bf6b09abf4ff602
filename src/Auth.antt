-- ===== src/Auth.antt =====
-- internal/auth: access tokens, and the checks of Google's id tokens. Passwords are in Service.Auth.
pub mod Jwt
pub mod Keys
pub mod Google

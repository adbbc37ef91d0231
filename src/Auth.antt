-- ===== src/Auth.antt =====
-- auth/service.py: users, their roles and their API tokens, and `require_api_token` of api/app.py.
pub mod Users
pub mod Tokens
pub mod Laws
pub mod Manned
pub mod Quiet

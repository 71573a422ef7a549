-- ===== src/Auth.antt =====
-- app/services/auth_service.py, app/utils/auth.py and the two hooks of app/api/oidc_hooks.py: who
-- may call the API. `Roles` has the role tiers, `Tokens` the tokens, `Access` the check of a request
-- and `Cookies` what the answer carries back.
mod Tests
pub mod Roles
pub mod RoleMap
pub mod Tokens
pub mod Access
pub mod Cookies

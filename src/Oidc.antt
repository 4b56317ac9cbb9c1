-- ===== src/Oidc.antt =====
-- internal/oidc/oidc.go: the handler that verifies tokens.
pub mod Checks
pub mod Signature
pub mod Handler
pub mod Parse
pub mod Accepts
pub mod Claims
pub mod Load
pub mod Keeps
pub mod Calls
pub mod Safety
pub mod Steps
pub mod Verified
pub mod Sound
pub mod Start
pub mod Settings
pub mod Complete

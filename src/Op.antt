-- ===== src/Op.antt =====
-- optest: the OpenID provider for tests.
pub mod Expiring
pub mod Authorizations
pub mod OpaqueTokens
pub mod Keys
pub mod Options
pub mod Bearer
pub mod Services
pub mod Action
pub mod Tokens
pub mod Provider
pub mod UserInfo
pub mod Random
pub mod Handlers
pub mod Keeps
pub mod Flow
pub mod Once
pub mod Events
pub mod Valid
pub mod Issued
pub mod Testing

-- ===== src/Examples.antt =====
-- examples: the programs that use the middleware.
pub mod Pkce
pub mod Runtime
pub mod Api
pub mod Servers
pub mod Provider

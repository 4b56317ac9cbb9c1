-- ===== src/Middleware.antt =====
-- The adapters of the web frameworks over the handler: oidchttp, oidcgin, oidcfiber, oidcechojwt,
-- and oidctoken. `ParseToken` is a parameter of each, on a state `S` (the handler and the world);
-- what an adapter does with its framework is a list of events, in order.
pub mod Http
pub mod Gin
pub mod Fiber
pub mod EchoJwt
pub mod TokenHandler
pub mod Decision

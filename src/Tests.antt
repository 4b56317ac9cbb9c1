-- ===== src/Tests.antt =====
-- Runs of the program at concrete inputs, with a concrete platform.
mod Fixture
mod Tokens
mod Keys
mod Parsing
mod Requests
mod Provider
mod Updates
mod Services
mod Server
mod Rotation
mod Ends
mod Delivered
mod Login
mod Api
mod Joint
mod Linked
mod Issued
mod Shown
mod Program
mod Opaque

-- ===== src/Examples.antt =====
-- examples/: the user service and its consumer.
pub mod Users
pub mod Provider
pub mod Gin
pub mod Consumer
pub mod Login
pub mod Messages
pub mod Mains

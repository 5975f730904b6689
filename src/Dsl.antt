-- ===== src/Dsl.antt =====
-- The DSL of dsl/: hooks and state handlers around a provider, message verification, the life of a
-- consumer test, and the client of the Pact CLI tools.
pub mod Client
pub mod Doubles
pub mod Hooks
pub mod Matcher
pub mod Messages
pub mod Interaction
pub mod Lifecycle
pub mod MockService
pub mod Pact
pub mod Reports
pub mod Publish
pub mod Verifying

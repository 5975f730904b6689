-- ===== src/Types.antt =====
-- The request types of types/ and their `Validate` methods, which build the command line of the
-- Pact CLI tools.
pub mod Args
pub mod Selector
pub mod VerifyRequest
pub mod PublishRequest
pub mod MessageRequest

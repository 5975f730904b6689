-- ===== src/Tests.antt =====
-- Tests on concrete inputs, and each theorem at an input that meets its hypotheses.
mod Requests
mod Sessions
mod Provider
mod Matching
mod Ports
mod Serving
mod Consumer
mod Messages
mod MessageConsumer
mod Manager
mod Lifecycle
mod Forms
mod Client
mod Verifying
mod MessageProvider
mod RecordedMessage
mod Publishing
mod Install
mod Reporting
mod Examples
mod Doubles

-- ===== src/Client.antt =====
-- client/: the processes of the Pact CLI tools, and the managers that keep them.
pub mod ServiceManager
pub mod Services
pub mod Interface

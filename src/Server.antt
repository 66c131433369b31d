-- ===== src/Server.antt =====
-- server/: commands on the database, and the handler of what a client sends.
pub mod Execute
pub mod Handler
pub mod Clients

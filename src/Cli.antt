-- ===== src/Cli.antt =====
-- cli/: the command line client.
pub mod Exchange
pub mod Dialogue
pub mod Document
pub mod Loop

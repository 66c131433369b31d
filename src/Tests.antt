-- ===== src/Tests.antt =====
-- Concrete runs, and each theorem with hypotheses at an input where they hold.
pub mod Layouts
pub mod Stores
pub mod Messages
pub mod Clients
pub mod Loops
pub mod Sessions
pub mod Tables
pub mod Served
pub mod Rounds
pub mod Descriptors
pub mod Dialogues

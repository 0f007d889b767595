-- ===== src/Tests.antt =====
-- Runs of the program on concrete inputs, and each theorem at an input where its hypotheses hold.
pub mod Data
pub mod Scheduling
pub mod Agents
pub mod Drivers
pub mod Queues
pub mod Starting
pub mod Systems
pub mod Memory
pub mod Clients
pub mod Readers

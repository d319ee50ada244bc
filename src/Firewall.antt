-- ===== src/Firewall.antt =====
-- build_files/firewall: what the read-only verifiers of an image tree read, and the Python operations
-- that they share.
pub mod Tree
pub mod Inventory
pub mod Daemon
pub mod System
pub mod Contracts

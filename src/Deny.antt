-- ===== src/Deny.antt =====
-- system_files/usr/libexec/bazzite-tower-snitchwatch-deny: the operator's opt-in to
-- DefaultAction=deny.
pub mod System
pub mod Run
pub mod Edit
pub mod Files
pub mod Record
pub mod State
pub mod Report
pub mod Snapshot
pub mod Trial
pub mod Commands
pub mod Main
pub mod Contract
pub mod Safety

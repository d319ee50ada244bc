-- ===== src/Deny/Safety.antt =====
-- What the deny helper keeps: a live deny stands under a pending trial or a marker of the
-- operator, and the state of a trial names a backup that allows.
pub mod Views
pub mod Calls
pub mod Private
pub mod Writes
pub mod Reports
pub mod Restore
pub mod Off
pub mod Saved
pub mod Start
pub mod On
pub mod Confirm
pub mod Guard
pub mod World
pub mod Recovery
pub mod Reboot

-- ===== src/Firewall/Daemon.antt =====
-- build_files/firewall/snitchwatch-system-daemon-verify.py: the verification of the reviewed daemon.
pub mod Names
pub mod Reading
pub mod Checks
pub mod Verify
pub mod Intact
pub mod Built
pub mod Reviewed

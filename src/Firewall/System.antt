-- ===== src/Firewall/System.antt =====
-- build_files/firewall/snitchwatch-system-verify.py: the verification of the system bridge's image tree.
pub mod Names
pub mod Reading
pub mod Activation
pub mod Bridge
pub mod Artifact
pub mod Scanner
pub mod Verify
pub mod Intact
pub mod Quiet
pub mod Bridged
pub mod Verified

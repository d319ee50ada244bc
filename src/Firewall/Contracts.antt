-- ===== src/Firewall/Contracts.antt =====
-- system_files/usr/libexec/bazzite-tower-snitchwatch-common.py: the checks of the installed image that
-- the privileged tools make before they act.
pub mod Installed
pub mod Image
pub mod Units
pub mod Trusted
pub mod Separated

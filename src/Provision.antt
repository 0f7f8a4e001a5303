-- ===== src/Provision.antt =====
-- src/frfw/provision.py: `apply_all` and `_Run`, for an apply that is no dry run. `W` is the
-- machine, and `Config` a parsed config. A step's own work (nft, ip, kea, dnsmasq, systemctl) is a
-- function of the machine that may stop half way with an exception.
pub mod Machinery
pub mod Steps
pub mod Apply
pub mod Restored
pub mod Unchanged
pub mod Outcome
mod Tests

-- ===== src/ApplyConfirm.antt =====
-- src/frfw/apply_confirm.py, and the requests of src/frfw/helper/server.py that apply a config: an
-- apply that is held until the admin confirms it, or goes back. The operations of apply_confirm.py run
-- under the one lock, so each is one step on the store. Times are milliseconds.
pub mod Store
pub mod Revert
pub mod Requests
pub mod Serve
pub mod Applies
pub mod Held
pub mod Back
pub mod Consistent
pub mod Invariant
pub mod Waiting
mod Tests

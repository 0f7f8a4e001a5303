-- ===== src/Accounts.antt =====
-- src/frfw/admin_account.py: the accounts of the web interface. The file is a value, and each
-- operation is a function of the file it reads under the lock.
pub mod Password
pub mod Account
pub mod Store
pub mod Written
pub mod Admins
pub mod Changes
pub mod Governed
pub mod Hashes
pub mod Signing
mod Tests

-- ===== src/Tickets.antt =====
-- src/frfw/webui/mfa.py: the tickets between the password and the second factor, and the codes of an
-- authenticator app. Times are milliseconds.
pub mod Issued
pub mod Codes
pub mod Totp
pub mod Spent
mod Tests

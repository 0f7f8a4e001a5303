-- ===== src/Sessions.antt =====
-- src/frfw/webui/auth.py and the check of each request in src/frfw/webui/deps.py: the sessions of
-- the web interface, and who may do what. Times are milliseconds.
pub mod Listed
pub mod Manager
pub mod Login
pub mod Ended
pub mod OfUser
pub mod Cookies
pub mod Live
pub mod Allowed
mod Tests

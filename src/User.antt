-- ===== src/User.antt =====
-- user/manager.py: the users that we know, and those that the server tracks for us.
pub mod Tracking
pub mod Manager

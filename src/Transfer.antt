-- ===== src/Transfer.antt =====
-- One file transfer: its data, its states and their transitions.
pub mod Model
pub mod State
pub mod Queue
pub mod Storage
pub mod Requests

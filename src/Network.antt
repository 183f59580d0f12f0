-- ===== src/Network.antt =====
-- The connections to the server and to peers.
pub mod Connection

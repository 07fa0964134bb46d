-- ===== src/Network.antt =====
-- network/: the choice of a network interface.
pub mod Manager

-- ===== src/Client.antt =====
-- client/: the clients of the store, of which the COBS framing of serial.go's port is modelled.
pub mod Cobs
pub mod Schedule
pub mod Rule
pub mod Sync

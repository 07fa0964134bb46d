-- ===== src/Examples.antt =====
-- Concrete inputs: tests of the definitions, and the theorems at inputs that meet their hypotheses.
mod Points
mod Tables
mod Modbus
mod Edges
mod Client
mod Network
mod Rules
mod Sync
mod Handlers

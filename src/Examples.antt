-- ===== src/Examples.antt =====
-- The theorems at concrete inputs, with tests of the definitions.
mod Fleet
mod Breaking
mod Choosing
mod Weighing
mod Balancing
mod Checking
mod Reporting
mod Testing
mod Starting
mod Racing

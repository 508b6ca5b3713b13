-- ===== src/Tests.antt =====
-- Runs at concrete inputs: each theorem that has hypotheses, applied where they hold.
mod Ports
mod Heaps
mod Numbers
mod Logs
mod Devices
mod Screens
mod Tasks
mod Clocks
mod Routines
mod Machines
mod SelfTests

-- ===== src/Examples.antt =====
-- Tests on small inputs, and each theorem at an input that meets its hypotheses.
mod Schedules
mod Leases
mod Lives
mod Gates
mod Drains
mod Pumps
mod Verdicts
mod Backends
mod Recoveries

-- ===== src/Tests.antt =====
-- Runs of the modelled code on concrete inputs, and the theorems at concrete inputs.
mod Capacity
mod Coordinator
mod Tasks
mod Budget
mod Access

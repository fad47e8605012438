-- ===== src/Examples.antt =====
-- Runs of the model on small inputs, and the properties at concrete inputs.
mod Names
mod Records
mod Policies
mod Updates
mod History
mod Writes
mod Transfers

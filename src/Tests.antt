-- ===== src/Tests.antt =====
-- Runs of the models at concrete inputs.
mod Queues
mod Batches
mod Memory
mod Decisions
mod Loops
mod Beats
mod Hosts
mod Graphs
mod Sleeps

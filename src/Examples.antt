-- ===== src/Examples.antt =====
-- A small platform that satisfies the laws, and runs of the program on it.
pub mod Toy
mod Store
mod Jobs
mod Traces
mod Events
mod Access
mod Arguments
mod Startup
mod Service
mod Threads
mod Faults

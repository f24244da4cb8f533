-- ===== src/Server.antt =====
-- source/main.cpp and the threads of the components: the server as a whole.
pub mod Running
pub mod Rules
pub mod Handlers
pub mod Queries
pub mod Changes
pub mod Data
pub mod Calls
pub mod Steps
pub mod Signals

-- ===== src/Tests.antt =====
-- Runs of the model on small inputs, and the theorems applied there. The parts of the system that
-- stand outside the repository are given small concrete stand-ins.
mod Samples
mod Thread
mod Items
mod Nodes
mod Daemon
mod Platform
mod Server
mod Settings
mod Startup
mod Session
mod Logs
mod Boot

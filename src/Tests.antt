-- ===== src/Tests.antt =====
-- Runs of the model on concrete inputs, and each theorem at one of them.
mod Queues
mod Processes
mod Stores
mod Documents
mod Requests
mod Outputs
mod Startups

-- ===== src/Tests.antt =====
-- Runs of the model at fixed inputs, and the theorems at inputs that meet their hypotheses.
mod Clients
mod Transports
mod Failures
mod Acks
mod Extensions
mod Pages
mod Subscriptions
mod Registrations
mod Systems
mod Hints
mod Cycles
mod Reloads
mod Values

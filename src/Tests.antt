-- ===== src/Tests.antt =====
-- Runs of the model on small inputs, and the theorems at such inputs.
mod Clients
mod Triggers
mod Mirrors
mod Systems
mod Files
mod Resolvers
mod Wakeups
mod World
mod Memory
mod Clusters
mod Commands
mod Settling
mod Webhooks
mod Scans
mod Pods

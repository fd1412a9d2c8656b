-- ===== src/Tests.antt =====
-- A concrete cluster, and runs of the definitions on it.
pub mod World
pub mod StateMachine
pub mod Reconciler
pub mod Volumes
pub mod Attachments
pub mod Workloads
pub mod Cell
pub mod Infrastructure
pub mod Secrets
pub mod Backups
pub mod Machines
pub mod Phases

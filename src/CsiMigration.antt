-- ===== src/CsiMigration.antt =====
-- pkg/controller/phases/migrate_csi_volumes.go: the phase that moves the CSI volumes.
pub mod Environment
pub mod Exec
pub mod Quiesce
pub mod Detach
pub mod Restore
pub mod Relocate
pub mod Pipeline
pub mod Preflight
pub mod Summary
pub mod Execute
pub mod Body
pub mod Ends
pub mod Settled
pub mod Totals
pub mod Through
pub mod Outcome
pub mod Rollback
pub mod Refusal

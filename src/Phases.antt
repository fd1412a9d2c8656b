-- ===== src/Phases.antt =====
-- The phases of pkg/controller/phases as bodies of the reconciler's phases.
pub mod Flow
pub mod Failing
pub mod UpdateSecrets
pub mod Managers
pub mod DisableCvo
pub mod Backup
pub mod DeleteCpms
pub mod UpdateInfrastructure
pub mod Writes
pub mod RecreateCpms
pub mod ScaleOldMachines
pub mod Passing
pub mod MonitorHealth
pub mod RestartPods
pub mod CreateWorkers
pub mod Cleanup

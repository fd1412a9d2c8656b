-- ===== src/CsiMigration/Outcome.antt =====
-- What `Execute` of migrate_csi_volumes.go returns once volumes have been discovered.
use openshift_vsphere_migrat.Base.{◌≡◌, ◌⊎◌, none, some, GoError, All}
use openshift_vsphere_migrat.Api.{CsiVolumeMigrationStatus, PhaseStatus, Migration}
use openshift_vsphere_migrat.CsiMigration.Environment.{Environment}
use openshift_vsphere_migrat.CsiMigration.Execute.{Outcome, status_or_empty}
use openshift_vsphere_migrat.CsiMigration.Through.{IsThrough, IsTallied}

-- Either a connection failed, and the error comes back beside the status as it was, or the phase is
-- completed, every volume is through, and the counters are the tally.
abbrev pub EndsAll : {S : Type 0} → CsiVolumeMigrationStatus → Outcome S → Type 0
EndsAll status (result, e, a, s) =
    ((error : GoError) × (e ≡ some error)
      × (result.status ≡ PhaseStatus.failed)
      × (a.csi_volume_migration ≡ some status))
    ⊎ ((e ≡ none)
        × (result.status ≡ PhaseStatus.completed)
        × (result.progress ≡ 100)
        × (status' : CsiVolumeMigrationStatus) × (a.csi_volume_migration ≡ some status')
        × IsTallied status'
        × All IsThrough status'.volumes)

-- The status that `Execute` works on.
abbrev pub csi_status : Migration → CsiVolumeMigrationStatus
csi_status m = status_or_empty m.status.csi_volume_migration

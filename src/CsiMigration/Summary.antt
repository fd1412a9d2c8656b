-- ===== src/CsiMigration/Summary.antt =====
-- The loop of `Execute` over the volumes, and the result that the counters give.
use openshift_vsphere_migrat.Base.{
  string_eq, nat_eq, ℕ, List, [], ◌∷◌, Message, lit, number, if◌then◌else◌,
}
use openshift_vsphere_migrat.Base.Int32.{Int32, add, mul, div, lt, le}
use openshift_vsphere_migrat.Api.{
  CsiVolumeMigrationStatus, PhaseStatus, LogLevel, LogEntry, FailureDomain, Migration,
}
use openshift_vsphere_migrat.Executor.{PhaseResult}
use openshift_vsphere_migrat.CsiMigration.Environment.{Environment}
use openshift_vsphere_migrat.CsiMigration.Pipeline.{Progress, log, process_volumes}

abbrev pub result_of : PhaseStatus → Message → Int32 → List LogEntry → ℕ → PhaseResult
result_of status message progress logs requeue = record {
  status = status;
  message = message;
  progress = progress;
  logs = logs;
  requeue_after = requeue;
}

-- `progress`: the share of the volumes that are through, in percent.
unfoldable pub percentage : CsiVolumeMigrationStatus → Int32
percentage status =
    if lt 0 status.total_volumes
    then div (mul (add status.migrated_volumes status.failed_volumes) 100) status.total_volumes
    else 0

module _ {S : Type 0} (env : Environment S) where
  -- From the counters to the result: the end of `Execute`.
  unfoldable pub finish_with_failures : CsiVolumeMigrationStatus → Progress S → PhaseResult
  finish_with_failures status p =
      result_of PhaseStatus.completed
        (lit "CSI volume migration completed with "
          ∷ number status.failed_volumes
          ∷ lit " failures - manual intervention required"
          ∷ [])
        100
        (log env LogLevel.warning
          (lit "CSI volume migration completed with "
            ∷ number status.failed_volumes
            ∷ lit " failures - workloads remain scaled down"
            ∷ [])
          p).logs
        0

  unfoldable pub finish_success : CsiVolumeMigrationStatus → Progress S → PhaseResult
  finish_success status p =
      result_of PhaseStatus.completed
        (lit "Successfully migrated " ∷ number status.migrated_volumes ∷ lit " CSI volumes" ∷ [])
        100
        (log env LogLevel.info
          (lit "Successfully migrated all "
            ∷ number status.migrated_volumes
            ∷ lit " CSI volumes"
            ∷ [])
          p).logs
        0

  finish_later : CsiVolumeMigrationStatus → Progress S → PhaseResult
  unfolding percentage
  finish_later status p =
      result_of PhaseStatus.running
        (lit "Migrating CSI volumes: "
          ∷ number status.migrated_volumes
          ∷ lit "/"
          ∷ number status.total_volumes
          ∷ lit " complete"
          ∷ [])
        (percentage status) p.logs 30000000000

  unfoldable pub summarise : CsiVolumeMigrationStatus → Progress S → PhaseResult
  unfolding finish_with_failures finish_success finish_later
  summarise status p =
      if le status.total_volumes (add status.migrated_volumes status.failed_volumes)
      then (if lt 0 status.failed_volumes
          then finish_with_failures status p
          else finish_success status p)
      else finish_later status p

  -- The loop over the volumes, and what the status shows after it.
  unfoldable pub migrate_volumes :
      FailureDomain
      → Migration
      → CsiVolumeMigrationStatus
      → List LogEntry
      → S
      → CsiVolumeMigrationStatus × Progress S
  migrate_volumes fd m status logs s =
      let (pvs, p) = process_volumes env fd m status.volumes (record {
        migrated = status.migrated_volumes;
        failed = status.failed_volumes;
        logs = logs;
        world = s;
      }) in
      (record status { volumes = pvs; migrated_volumes = p.migrated; failed_volumes = p.failed }, p)

-- ===== src/Phases/DeleteCpms.antt =====
-- pkg/controller/phases/delete_cpms.go.
use openshift_vsphere_migrat.Base.{none, Message, msg, Result, ok, err}
use openshift_vsphere_migrat.Base.Exec.{Exec, pure as pure_exec}
use openshift_vsphere_migrat.Api.{delete_cpms, PhaseStatus, LogLevel, BackupManifest, Migration}
use openshift_vsphere_migrat.Backups.{get_backup, restore_resource}
use openshift_vsphere_migrat.Machines.Types.{cpms_name, machine_api_namespace}
use openshift_vsphere_migrat.Machines.ControlPlane.{delete_control_plane_machine_set}
use openshift_vsphere_migrat.Reconciler.Phases.{PhaseBody}
use openshift_vsphere_migrat.Phases.Flow.{
  PhaseEnd, Step, finish, try, log, run, roll_back, ◌>>=◌, ◌>>◌,
}
use openshift_vsphere_migrat.Phases.Managers.{PhaseExecutor}

module _ {S : Type 0} (executor : PhaseExecutor S) where
  log_at : LogLevel → Message → Step S (Unit {0})
  log_at = log executor.kube_client.now delete_cpms

  -- Any error counts as a machine set that is gone.
  log_deletion : Result (Unit {0}) → Step S (Unit {0})
  unfolding log_at
  log_deletion (err e) = log_at LogLevel.warning (msg "CPMS not found or already deleted")
  log_deletion (ok u) = log_at LogLevel.info (msg "Successfully deleted Control Plane Machine Set")

  unfoldable pub execute : Step S PhaseEnd
  unfolding log_at log_deletion
  execute = do
    log_at LogLevel.info (msg "Deleting Control Plane Machine Set before infrastructure update")
    r ← try (delete_control_plane_machine_set executor.machine_manager)
    log_deletion r
    finish PhaseStatus.completed (msg "Successfully deleted CPMS") 100 0 none

  -- A missing backup is no error.
  unfoldable pub restore_found : Result BackupManifest → Exec S (Unit {0})
  restore_found (err e) = pure_exec tt
  restore_found (ok b) = restore_resource executor.restore_manager b

  unfoldable pub rollback : Migration → Exec S (Unit {0})
  unfolding restore_found
  rollback m = restore_found (
      get_backup m.status.backup_manifests "ControlPlaneMachineSet" cpms_name machine_api_namespace)

  unfoldable pub delete_cpms_body : PhaseBody S
  unfolding execute rollback run roll_back
  delete_cpms_body = record {
    validate = λ m. pure_exec tt;
    execute = λ m. run execute m;
    rollback = λ m. roll_back (rollback m) m;
  }

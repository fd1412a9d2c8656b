-- ===== src/Phases/UpdateInfrastructure.antt =====
-- pkg/controller/phases/update_infra.go.
use openshift_vsphere_migrat.Base.{Option, none, some, Message, msg, Result, ok, err}
use openshift_vsphere_migrat.Base.Exec.{Exec, pure as pure_exec, raise}
use openshift_vsphere_migrat.Api.{
  update_infrastructure, PhaseStatus, LogLevel, BackupManifest, Migration,
}
use openshift_vsphere_migrat.Infrastructure.{
  VsphereSpec, get, add_target_vcenter_with_crd_modification,
}
use openshift_vsphere_migrat.Backups.{get_backup, restore_resource}
use openshift_vsphere_migrat.Reconciler.Phases.{PhaseBody}
use openshift_vsphere_migrat.Phases.Flow.{
  PhaseEnd, Step, pure, finish, call, log, run, roll_back, ◌>>=◌, ◌>>◌,
}
use openshift_vsphere_migrat.Phases.Managers.{PhaseExecutor}

module _ {S : Type 0} (executor : PhaseExecutor S) where
  abbrev info : Message → Step S (Unit {0})
  info = log executor.kube_client.now update_infrastructure LogLevel.info

  -- The failed result stands beside the error of the update before, which is nil.
  unfoldable pub check_updated : Option VsphereSpec → Step S (Unit {0})
  check_updated none =
      finish PhaseStatus.failed (msg "Infrastructure vSphere platform spec is nil after update") 0 0
        none
  check_updated (some v) = pure tt

  unfoldable pub execute : Migration → Step S PhaseEnd
  unfolding check_updated
  execute m = do
    info (msg "Updating Infrastructure CRD with target vCenter")
    infra ← call (get executor.infra_manager) (msg "Failed to get infrastructure: ")
    info (msg "Retrieved current Infrastructure CRD")
    info (
        msg
          "Modifying Infrastructure CRD to allow vCenter array modification (CVO will restore later)")
    updated ←
        call (add_target_vcenter_with_crd_modification executor.infra_manager infra m)
          (msg "Failed to add target vCenter to infrastructure: ")
    info (msg "Infrastructure CRD modified - CVO will restore original schema when re-enabled")
    info (msg "Added target vCenter and failure domains to Infrastructure CRD")
    check_updated updated.vsphere
    info (msg "Infrastructure updated successfully")
    finish PhaseStatus.completed (msg "Successfully updated Infrastructure CRD") 100 0 none

  unfoldable pub restore_found : Result BackupManifest → Exec S (Unit {0})
  restore_found (err e) = raise e
  restore_found (ok b) = restore_resource executor.restore_manager b

  unfoldable pub rollback : Migration → Exec S (Unit {0})
  unfolding restore_found
  rollback m = restore_found (get_backup m.status.backup_manifests "Infrastructure" "cluster" "")

  unfoldable pub update_infrastructure_body : PhaseBody S
  unfolding execute rollback run roll_back
  update_infrastructure_body = record {
    validate = λ m. pure_exec tt;
    execute = λ m. run (execute m) m;
    rollback = λ m. roll_back (rollback m) m;
  }

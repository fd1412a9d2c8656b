-- ===== src/Phases/Managers.antt =====
-- The clients and managers that the PhaseExecutor of pkg/controller/phases/phase.go hands to the phases.
use openshift_vsphere_migrat.Base.{String, [], some, panicked}
use openshift_vsphere_migrat.Base.Exec.{Exec}
use openshift_vsphere_migrat.Base.Int32.{Int32}
use openshift_vsphere_migrat.Api.{PhaseStatus, BackupManifest}
use openshift_vsphere_migrat.Kube.{Client}
use openshift_vsphere_migrat.Infrastructure.{Infrastructure, InfrastructureManager}
use openshift_vsphere_migrat.Secrets.{Secret, SecretClient}
use openshift_vsphere_migrat.Machines.Types.{MachineManager}
use openshift_vsphere_migrat.Backups.{KubeObject, BackupCodec, RestoreManager, add_backup}
use openshift_vsphere_migrat.Phases.Flow.{Step, next, finish}

-- `infrastructure_object` and `secret_object` are the objects as a backup sees them. `share` is
-- `int32(float64(ready) / float64(total) * scale)`.
pub record PhaseExecutor (S : Type 0) : Type 0 where
  pub kube_client : Client S
  pub config_map : String → String → Exec S KubeObject
  pub backup_codec : BackupCodec
  pub restore_manager : RestoreManager S
  pub infra_manager : InfrastructureManager S
  pub secret_manager : SecretClient S
  pub machine_manager : MachineManager S
  pub infrastructure_object : Infrastructure → KubeObject
  pub secret_object : Secret → KubeObject
  pub share : Int32 → Int32 → Int32 → Int32

module _ {S : Type 0} where
  -- `AddBackupToMigration` on the migration that the phase was given.
  unfoldable pub keep_backup : BackupManifest → Step S (Unit {0})
  keep_backup b j s =
      let kept = record j.artifacts {
        backup_manifests = add_backup b j.artifacts.backup_manifests;
      } in
      (next tt, record j { artifacts = kept }, s)

-- A run-time panic ends the phase.
module _ {S A : Type 0} where
  unfoldable pub panic : String → Step S A
  panic text = finish PhaseStatus.failed [] 0 0 (some (panicked text))

-- ===== src/Phases/Backup.antt =====
-- pkg/controller/phases/backup.go.
pub mod Coverage
use openshift_vsphere_migrat.Base.{String, none, Message, msg}
use openshift_vsphere_migrat.Base.Exec.{Exec, pure as pure_exec}
use openshift_vsphere_migrat.Api.{backup, PhaseStatus, LogLevel, Migration}
use openshift_vsphere_migrat.Infrastructure.{get}
use openshift_vsphere_migrat.Secrets.{get_vsphere_creds_secret}
use openshift_vsphere_migrat.Backups.{KubeObject, backup_resource}
use openshift_vsphere_migrat.Reconciler.Phases.{PhaseBody}
use openshift_vsphere_migrat.Phases.Flow.{
  PhaseEnd, Step, finish, call, log, run, roll_back, ◌>>=◌, ◌>>◌,
}
use openshift_vsphere_migrat.Phases.Managers.{PhaseExecutor, keep_backup}

module _ {S : Type 0} (executor : PhaseExecutor S) where
  abbrev info : Message → Step S (Unit {0})
  info = log executor.kube_client.now backup LogLevel.info

  -- One object: its backup is made and kept.
  unfoldable pub back_up : KubeObject → String → Message → Message → Step S (Unit {0})
  unfolding keep_backup
  back_up o resource_type what text = do
    b ← call (backup_resource executor.kube_client.now executor.backup_codec o resource_type) what
    keep_backup b
    info text

  unfoldable pub execute : Step S PhaseEnd
  unfolding back_up
  execute = do
    info (msg "Backing up critical resources")
    infra ← call (get executor.infra_manager) (msg "Failed to get infrastructure: ")
    back_up (executor.infrastructure_object infra) "Infrastructure"
        (msg "Failed to backup infrastructure: ") (msg "Backed up Infrastructure CRD")
    secret ←
        call (get_vsphere_creds_secret executor.secret_manager)
          (msg "Failed to get vsphere-creds secret: ")
    back_up (executor.secret_object secret) "Secret" (msg "Failed to backup secret: ")
        (msg "Backed up vsphere-creds secret")
    cm ←
        call (executor.config_map "openshift-config" "cloud-provider-config")
          (msg "Failed to get cloud-provider-config: ")
    back_up cm "ConfigMap" (msg "Failed to backup ConfigMap: ")
        (msg "Backed up cloud-provider-config")
    info (msg "Successfully backed up all critical resources")
    finish PhaseStatus.completed (msg "Successfully backed up all critical resources") 100 0 none

  unfoldable pub backup_body : PhaseBody S
  unfolding execute run roll_back
  backup_body = record {
    validate = λ m. pure_exec tt;
    execute = λ m. run execute m;
    rollback = roll_back (pure_exec tt);
  }

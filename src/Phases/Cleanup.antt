-- ===== src/Phases/Cleanup.antt =====
-- pkg/controller/phases/cleanup.go.
pub mod Repeated
use openshift_vsphere_migrat.Base.{
  ℕ, String, ◌<>◌, List, [], ◌∷◌, none, Message, msg, lit, Result, ok, err,
}
use openshift_vsphere_migrat.Base.Exec.{Exec, pure as pure_exec, raise, ◌>>=◌ as and_then}
use openshift_vsphere_migrat.Api.{Time, cleanup, PhaseStatus, LogLevel, BackupManifest, Migration}
use openshift_vsphere_migrat.Infrastructure.{
  Infrastructure, InfrastructureManager, get, get_source_vcenter, remove_source_vcenter,
}
use openshift_vsphere_migrat.ConfigMaps.{
  ConfigMapManager, get_cloud_provider_config, remove_source_vcenter_from_config,
}
use openshift_vsphere_migrat.Secrets.{
  entries_of, get_vsphere_creds_secret, remove_source_vcenter_creds, get_target_vcenter_credentials,
}
use openshift_vsphere_migrat.Pods.{PodClient, restart_vsphere_pods}
use openshift_vsphere_migrat.Backups.{get_backup, restore_resource}
use openshift_vsphere_migrat.Reconciler.Phases.{PhaseBody}
use openshift_vsphere_migrat.Phases.Flow.{
  PhaseEnd, Step, pure, finish, call, try, log, run, roll_back, ◌>>=◌, ◌>>◌,
}
use openshift_vsphere_migrat.Phases.Managers.{PhaseExecutor}

-- The MetadataManager of pkg/metadata/metadata.go: `generate` gives the file's text.
pub record MetadataManager (S : Type 0) : Type 0 where
  pub generate : Migration → Infrastructure → List (String × String) → Exec S String
  pub save_to_config_map : String → String → String → Exec S (Unit {0})

abbrev get_metadata_config_map_name : String → String
get_metadata_config_map_name name = name <> "-metadata"

module _ {S : Type 0} (now : S → Time) (infra_manager : InfrastructureManager S) where
  -- The source is the first vCenter that the infrastructure names now.
  unfoldable pub clean_infrastructure : Step S String
  clean_infrastructure = do
    source ←
        call (get_source_vcenter infra_manager)
          (msg "Failed to get source vCenter from Infrastructure: ")
    log now cleanup LogLevel.info (msg "Removing source vCenter from Infrastructure CRD")
    infra ← call (get infra_manager) (msg "Failed to get Infrastructure: ")
    call (remove_source_vcenter infra_manager infra source.server)
        (msg "Failed to remove source vCenter from Infrastructure: ")
    log now cleanup LogLevel.info (msg "Removed source vCenter from Infrastructure CRD")
    pure source.server

module _ {S : Type 0} (executor : PhaseExecutor S) (config_manager : ConfigMapManager S)
    (pods : PodClient S) (turns : ℕ) (metadata : MetadataManager S) where
  abbrev info : Message → Step S (Unit {0})
  info = log executor.kube_client.now cleanup LogLevel.info

  unfoldable pub clean_config : String → Step S (Unit {0})
  clean_config server = do
    info (msg "Removing source vCenter from cloud-provider-config")
    cm ←
        call (get_cloud_provider_config config_manager)
          (msg "Failed to get cloud-provider-config: ")
    call (remove_source_vcenter_from_config config_manager cm server)
        (msg "Failed to remove source vCenter from config: ")
    info (msg "Removed source vCenter from cloud-provider-config")

  unfoldable pub clean_secret : String → Step S (Unit {0})
  clean_secret server = do
    info (msg "Removing source vCenter credentials from secret")
    secret ←
        call (get_vsphere_creds_secret executor.secret_manager)
          (msg "Failed to get vsphere-creds secret: ")
    call (remove_source_vcenter_creds executor.secret_manager secret server)
        (msg "Failed to remove source vCenter credentials: ")
    info (msg "Removed source vCenter credentials")

  -- The metadata, whose errors are logged only.
  unfoldable pub make_metadata : Migration → Exec S (Unit {0})
  make_metadata m = and_then (get executor.infra_manager) λ infra.
      and_then (get_target_vcenter_credentials executor.secret_manager m) λ secret.
        and_then (metadata.generate m infra (entries_of secret.entries))
          λ text. metadata.save_to_config_map text m.namespace (get_metadata_config_map_name m.name)

  unfoldable pub log_metadata : Migration → Result (Unit {0}) → Step S (Unit {0})
  log_metadata m (err e) = pure tt
  log_metadata m (ok u) = info (
      lit "Generated metadata.json in ConfigMap "
      ∷ lit m.namespace
      ∷ lit "/"
      ∷ lit (get_metadata_config_map_name m.name)
      ∷ [])

  unfoldable pub execute : Migration → Step S PhaseEnd
  unfolding clean_infrastructure clean_config clean_secret make_metadata log_metadata
  execute m = do
    info (msg "Cleaning up source vCenter configuration")
    server ← clean_infrastructure executor.kube_client.now executor.infra_manager
    clean_config server
    clean_secret server
    info (msg "Restarting vSphere pods to apply cleanup")
    try (restart_vsphere_pods pods turns)
    info (msg "Cleanup completed successfully")
    info (msg "Generating installer metadata.json")
    r ← try (make_metadata m)
    log_metadata m r
    finish PhaseStatus.completed (msg "Successfully cleaned up source vCenter configuration") 100 0
        none

  restore_found : Result BackupManifest → Exec S (Unit {0})
  restore_found (err e) = raise e
  restore_found (ok b) = restore_resource executor.restore_manager b

  unfoldable pub rollback : Migration → Exec S (Unit {0})
  unfolding restore_found
  rollback m =
      let kept = m.status.backup_manifests in
      and_then (restore_found (get_backup kept "Infrastructure" "cluster" "")) λ u.
        and_then
          (restore_found (get_backup kept "ConfigMap" "cloud-provider-config" "openshift-config"))
          λ u. restore_found (get_backup kept "Secret" "vsphere-creds" "kube-system")

  unfoldable pub cleanup_body : PhaseBody S
  unfolding execute rollback run roll_back
  cleanup_body = record {
    validate = λ m. pure_exec tt;
    execute = λ m. run (execute m) m;
    rollback = λ m. roll_back (rollback m) m;
  }

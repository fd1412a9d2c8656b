-- ===== src/Reconciler/Phases.antt =====
-- `getPhaseImplementation` and `getAllPhases` of pkg/controller/reconciler.go. The bodies of the
-- phases are parameters here; the names are those of each phase's `Name` method.
use openshift_vsphere_migrat.Base.{List, [], ◌∷◌, Option, none, some, GoError}
use openshift_vsphere_migrat.Base.Exec.{Exec}
use openshift_vsphere_migrat.Api.{
  MigrationPhase, preflight, backup, disable_cvo, update_secrets, create_tags, create_folder,
  delete_cpms, update_infrastructure, update_config, restart_pods, monitor_health, create_workers,
  recreate_cpms, migrate_csi_volumes, scale_old_machines, cleanup, verify, Migration, Artifacts,
}
use openshift_vsphere_migrat.Executor.{PhaseResult, Phase}

-- `Validate`, `Execute` and `Rollback` of one phase.
pub record PhaseBody (S : Type 0) : Type 0 where
  pub validate : Migration → Exec S (Unit {0})
  pub execute : Migration → S → PhaseResult × Option GoError × Artifacts × S
  pub rollback : Migration → S → Option GoError × Artifacts × S

pub record PhaseBodies (S : Type 0) : Type 0 where
  pub preflight_body : PhaseBody S
  pub backup_body : PhaseBody S
  pub disable_cvo_body : PhaseBody S
  pub update_secrets_body : PhaseBody S
  pub create_tags_body : PhaseBody S
  pub create_folder_body : PhaseBody S
  pub delete_cpms_body : PhaseBody S
  pub update_infrastructure_body : PhaseBody S
  pub update_config_body : PhaseBody S
  pub restart_pods_body : PhaseBody S
  pub monitor_health_body : PhaseBody S
  pub create_workers_body : PhaseBody S
  pub recreate_cpms_body : PhaseBody S
  pub migrate_csi_volumes_body : PhaseBody S
  pub scale_old_machines_body : PhaseBody S
  pub cleanup_body : PhaseBody S
  pub verify_body : PhaseBody S

abbrev pub make_phase : {S : Type 0} → MigrationPhase → PhaseBody S → Phase S
make_phase name body = record {
  name = name;
  validate = body.validate;
  execute = body.execute;
  rollback = body.rollback;
}

module _ {S : Type 0} (bodies : PhaseBodies S) where
  -- `MigrateCSIVolumes` is commented out of the switch.
  unfoldable pub get_phase_implementation : MigrationPhase → Option (Phase S)
  get_phase_implementation preflight = some (make_phase preflight bodies.preflight_body)
  get_phase_implementation backup = some (make_phase backup bodies.backup_body)
  get_phase_implementation disable_cvo = some (make_phase disable_cvo bodies.disable_cvo_body)
  get_phase_implementation update_secrets =
      some (make_phase update_secrets bodies.update_secrets_body)
  get_phase_implementation create_tags = some (make_phase create_tags bodies.create_tags_body)
  get_phase_implementation create_folder = some (make_phase create_folder bodies.create_folder_body)
  get_phase_implementation delete_cpms = some (make_phase delete_cpms bodies.delete_cpms_body)
  get_phase_implementation update_infrastructure =
      some (make_phase update_infrastructure bodies.update_infrastructure_body)
  get_phase_implementation update_config = some (make_phase update_config bodies.update_config_body)
  get_phase_implementation restart_pods = some (make_phase restart_pods bodies.restart_pods_body)
  get_phase_implementation monitor_health =
      some (make_phase monitor_health bodies.monitor_health_body)
  get_phase_implementation create_workers =
      some (make_phase create_workers bodies.create_workers_body)
  get_phase_implementation recreate_cpms = some (make_phase recreate_cpms bodies.recreate_cpms_body)
  get_phase_implementation scale_old_machines =
      some (make_phase scale_old_machines bodies.scale_old_machines_body)
  get_phase_implementation cleanup = some (make_phase cleanup bodies.cleanup_body)
  get_phase_implementation verify = some (make_phase verify bodies.verify_body)
  get_phase_implementation p = none

  -- `RecreateCPMS` is commented out of the list, and `MigrateCSIVolumes` is in it.
  unfoldable pub get_all_phases : List (Phase S)
  get_all_phases =
      make_phase preflight bodies.preflight_body
      ∷ make_phase backup bodies.backup_body
      ∷ make_phase disable_cvo bodies.disable_cvo_body
      ∷ make_phase update_secrets bodies.update_secrets_body
      ∷ make_phase create_tags bodies.create_tags_body
      ∷ make_phase create_folder bodies.create_folder_body
      ∷ make_phase delete_cpms bodies.delete_cpms_body
      ∷ make_phase update_infrastructure bodies.update_infrastructure_body
      ∷ make_phase update_config bodies.update_config_body
      ∷ make_phase restart_pods bodies.restart_pods_body
      ∷ make_phase monitor_health bodies.monitor_health_body
      ∷ make_phase create_workers bodies.create_workers_body
      ∷ make_phase migrate_csi_volumes bodies.migrate_csi_volumes_body
      ∷ make_phase scale_old_machines bodies.scale_old_machines_body
      ∷ make_phase cleanup bodies.cleanup_body
      ∷ make_phase verify bodies.verify_body
      ∷ []

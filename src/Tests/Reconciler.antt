-- ===== src/Tests/Reconciler.antt =====
-- The reconciler and the controller on the concrete cluster.
use openshift_vsphere_migrat.Base.{
  ◌≡◌, refl, ◌≢◌, ◌⊎◌, true, map, Option, none, some, msg, GoError, errorf, api, Reason, ok, err,
  All,
}
use openshift_vsphere_migrat.Base.Exec.{Exec, pure, raise}
use openshift_vsphere_migrat.Api.{
  MigrationPhase, preflight, backup, disable_cvo, update_secrets, create_tags, create_folder,
  delete_cpms, update_infrastructure, update_config, restart_pods, monitor_health, create_workers,
  recreate_cpms, scale_old_machines, cleanup, verify, migrate_csi_volumes, completed, phase_beq,
  PhaseHistoryEntry, Migration,
}
use mathlib.Core.Path.{subst}
use openshift_vsphere_migrat.Executor.{Phase, execute_phase}
use openshift_vsphere_migrat.Executor.Success.{Succeeds}
use openshift_vsphere_migrat.Executor.View.{KeepsView}
use openshift_vsphere_migrat.Executor.Waiting.{IsFree}
use openshift_vsphere_migrat.StateMachine.{next_of, phase_order, should_execute_phase, find_phase}
use openshift_vsphere_migrat.Reconciler.Phases.{
  make_phase, get_phase_implementation, get_all_phases,
}
use openshift_vsphere_migrat.Reconciler.Approval.{sync_migration-IsFree}
use openshift_vsphere_migrat.Reconciler.Coverage.{rollback_reach}
use openshift_vsphere_migrat.Reconciler.Frame.{IsFramed}
use openshift_vsphere_migrat.Reconciler.Run.{sync_many}
use openshift_vsphere_migrat.Reconciler.Completion.{
  AllSucceed, IsCompletedEntry, migration_completes,
}
use openshift_vsphere_migrat.Reconciler.{sync_migration}
use openshift_vsphere_migrat.Controller.{MigrationClient, sync_migration_from_key}
use openshift_vsphere_migrat.Controller.Failure.{failure_not_stored}
use openshift_vsphere_migrat.Tests.World.{
  World, world, client, bodies, broken_bodies, succeeding, fresh, manual,
}

-- What holds of the implementation, where there is one.
abbrev Holds : (Phase World → Type 0) → Option (Phase World) → Type 0
Holds P none = Unit
Holds P (some phase) = P phase

held :
    (P : Phase World → Type 0) (o : Option (Phase World)) (phase : Phase World)
    → o ≡ some phase
    → Holds P o
    → P phase
held P o phase h x = subst (Holds P) h x

works : (p : MigrationPhase) → Succeeds (make_phase p (succeeding p))
works p = record { valid = λ m s. refl; status = λ m s. refl; no_error = λ m s. refl }

each_works : (p : MigrationPhase) → Holds Succeeds (get_phase_implementation bodies p)
unfolding get_phase_implementation
each_works preflight = works preflight
each_works backup = works backup
each_works disable_cvo = works disable_cvo
each_works update_secrets = works update_secrets
each_works create_tags = works create_tags
each_works create_folder = works create_folder
each_works delete_cpms = works delete_cpms
each_works update_infrastructure = works update_infrastructure
each_works update_config = works update_config
each_works restart_pods = works restart_pods
each_works monitor_health = works monitor_health
each_works create_workers = works create_workers
each_works recreate_cpms = works recreate_cpms
each_works scale_old_machines = works scale_old_machines
each_works cleanup = works cleanup
each_works verify = works verify
each_works p = tt

all_succeed : AllSucceed client bodies
all_succeed p phase h = held Succeeds (get_phase_implementation bodies p) phase h (each_works p)

sync_migration-IsFree_example :
    (should_execute_phase manual preflight ≡ true)
    × IsFree (sync_migration client bodies manual world).1
sync_migration-IsFree_example = sync_migration-IsFree client bodies manual world preflight refl refl

migration_completes_example :
    let m' = (sync_many client bodies 16 manual world).0 in
    (m'.status.phase ≡ completed)
    × (map (λ (e : PhaseHistoryEntry). e.phase) m'.status.phase_history ≡ phase_order)
    × All IsCompletedEntry m'.status.phase_history
migration_completes_example =
    migration_completes client bodies manual world all_succeed refl refl refl

found :
    get_phase_implementation bodies recreate_cpms
    ≡ some (make_phase recreate_cpms bodies.recreate_cpms_body)
unfolding get_phase_implementation
found = refl

rollback_reach_example :
    (recreate_cpms ≡ recreate_cpms) × (find_phase recreate_cpms (get_all_phases bodies) ≡ none)
    ⊎ (recreate_cpms ≢ recreate_cpms)
      × (find_phase recreate_cpms (get_all_phases bodies)
          ≡ some (make_phase recreate_cpms bodies.recreate_cpms_body))
rollback_reach_example =
    rollback_reach bodies recreate_cpms (make_phase recreate_cpms bodies.recreate_cpms_body) found

abbrev stored : World → Option Migration
stored s = s.stored

works_quietly : (p : MigrationPhase) → KeepsView stored (make_phase p (succeeding p))
works_quietly p = record { validate = λ m s. refl; execute = λ m s. refl; rollback = λ m s. refl }

breaks_quietly : KeepsView stored (make_phase preflight broken_bodies.preflight_body)
breaks_quietly = record { validate = λ m s. refl; execute = λ m s. refl; rollback = λ m s. refl }

each_is_quiet :
    (p : MigrationPhase) → Holds (KeepsView stored) (get_phase_implementation broken_bodies p)
unfolding get_phase_implementation
each_is_quiet preflight = breaks_quietly
each_is_quiet backup = works_quietly backup
each_is_quiet disable_cvo = works_quietly disable_cvo
each_is_quiet update_secrets = works_quietly update_secrets
each_is_quiet create_tags = works_quietly create_tags
each_is_quiet create_folder = works_quietly create_folder
each_is_quiet delete_cpms = works_quietly delete_cpms
each_is_quiet update_infrastructure = works_quietly update_infrastructure
each_is_quiet update_config = works_quietly update_config
each_is_quiet restart_pods = works_quietly restart_pods
each_is_quiet monitor_health = works_quietly monitor_health
each_is_quiet create_workers = works_quietly create_workers
each_is_quiet recreate_cpms = works_quietly recreate_cpms
each_is_quiet scale_old_machines = works_quietly scale_old_machines
each_is_quiet cleanup = works_quietly cleanup
each_is_quiet verify = works_quietly verify
each_is_quiet p = tt

all_quiet : All (KeepsView stored) (get_all_phases broken_bodies)
unfolding get_all_phases
all_quiet = (
  breaks_quietly,
  (
    works_quietly backup,
    (
      works_quietly disable_cvo,
      (
        works_quietly update_secrets,
        (
          works_quietly create_tags,
          (
            works_quietly create_folder,
            (
              works_quietly delete_cpms,
              (
                works_quietly update_infrastructure,
                (
                  works_quietly update_config,
                  (
                    works_quietly restart_pods,
                    (
                      works_quietly monitor_health,
                      (
                        works_quietly create_workers,
                        (
                          works_quietly migrate_csi_volumes,
                          (
                            works_quietly scale_old_machines,
                            (works_quietly cleanup, (works_quietly verify, tt)),
                          ),
                        ),
                      ),
                    ),
                  ),
                ),
              ),
            ),
          ),
        ),
      ),
    ),
  ),
)

stored-framed : IsFramed stored client broken_bodies
stored-framed = record {
  executed = λ p phase h.
      held (KeepsView stored) (get_phase_implementation broken_bodies p) phase h (each_is_quiet p);
  listed = all_quiet;
  quiet = record { get = λ namespace name s. refl; update = λ namespace d s. refl };
}

abbrev stored_or_missing : Option Migration → Exec World Migration
stored_or_missing none = raise (api Reason.not_found "not found")
stored_or_missing (some m) = pure m

-- The stored object is its own unstructured form.
abbrev api_store : MigrationClient World Migration
api_store = record {
  split_key = λ key. ok ("openshift-config", "migration");
  get = λ namespace name s. stored_or_missing s.stored s;
  from_unstructured = λ u. ok u;
  to_unstructured = λ m. ok m;
  update_status = λ namespace u s. (ok tt, record s { stored = some u });
  retry_on_error = λ backoff test write. write;
}

abbrev no_space : GoError
no_space = errorf (msg "no space")

runs_out : (sync_migration client broken_bodies fresh world).0 ≡ some no_space
unfolding sync_migration get_phase_implementation phase_beq execute_phase should_execute_phase
    next_of
runs_out = refl

failure_not_stored_example :
    ((sync_migration_from_key api_store client broken_bodies "openshift-config/migration" world).0
      ≡ err no_space)
    × (stored
          (sync_migration_from_key api_store client broken_bodies "openshift-config/migration"
            world).1
        ≡ stored world)
failure_not_stored_example =
    failure_not_stored api_store client broken_bodies stored "openshift-config/migration"
      "openshift-config" "migration" world world fresh fresh no_space stored-framed refl refl refl
      refl runs_out

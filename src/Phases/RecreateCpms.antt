-- ===== src/Phases/RecreateCpms.antt =====
-- pkg/controller/phases/recreate_cpms.go.
pub mod Unmonitored
use openshift_vsphere_migrat.Base.{
  Bool, true, false, ◌&&◌, not, List, [], ◌∷◌, ◌-◌, ◌%◌, Option, none, some, Message, msg, lit,
  number, duration, GoError, Result, ok, err, if◌then◌else◌, ltb,
}
use openshift_vsphere_migrat.Base.Exec.{
  Exec, pure as pure_exec, raise, gets, attempt, ◌>>=◌ as and_then,
}
use openshift_vsphere_migrat.Base.Int32.{Int32, lt}
use openshift_vsphere_migrat.Api.{
  Time, Duration, recreate_cpms, PhaseStatus, PhaseState, LogLevel, BackupManifest, Migration,
}
use openshift_vsphere_migrat.Executor.{resumes}
use openshift_vsphere_migrat.Infrastructure.{get_infrastructure_id}
use openshift_vsphere_migrat.Machines.Types.{cpms_name, machine_api_namespace}
use openshift_vsphere_migrat.Machines.ControlPlane.{
  wait_for_cpms_inactive, update_cpms_failure_domain, is_cpms_generation_observed,
  check_control_plane_rollout_status, delete_control_plane_machine_set,
}
use openshift_vsphere_migrat.Backups.{get_backup, restore_resource}
use openshift_vsphere_migrat.Reconciler.Phases.{PhaseBody}
use openshift_vsphere_migrat.Phases.Flow.{
  PhaseEnd, Step, pure, finish, call, try, log, run, roll_back, ◌>>=◌, ◌>>◌,
}
use openshift_vsphere_migrat.Phases.Managers.{PhaseExecutor}

abbrev second : Duration
second = 1000000000

abbrev thirty_seconds : Duration
thirty_seconds = 30000000000

-- `5*time.Minute`, of the wait and of `minMonitoringDuration`
abbrev five_minutes : Duration
five_minutes = 300000000000

abbrev start_of : Option PhaseState → Option Time
start_of none = none
start_of (some state) = state.start_time

abbrev truncated : Duration → Duration
truncated d = d - d % second

module _ {S : Type 0} (executor : PhaseExecutor S) where
  abbrev info : Message → Step S (Unit {0})
  info = log executor.kube_client.now recreate_cpms LogLevel.info

  -- The log entry and the result of a phase that goes on.
  unfoldable pub keep_waiting : {A : Type 0} → Message → Int32 → Step S A
  keep_waiting text progress = do
    info text
    finish PhaseStatus.running text progress thirty_seconds none

  -- The first execution updates the machine set, a resumed one does not.
  unfoldable pub start : Migration → Step S (Unit {0})
  start m = do
    info (msg "Updating Control Plane Machine Set")
    info (msg "Waiting for CPMS to become Inactive")
    call (wait_for_cpms_inactive executor.machine_manager five_minutes)
        (msg "CPMS did not become Inactive: ")
    info (msg "CPMS is now Inactive")
    infra_id ←
        call (get_infrastructure_id executor.infra_manager)
          (msg "Failed to get infrastructure ID: ")
    info (msg "Updating CPMS with target vCenter failure domain")
    call (update_cpms_failure_domain executor.machine_manager m infra_id)
        (msg "Failed to update CPMS: ")
    info (msg "Updated CPMS and set to Active, waiting for rollout to begin")

  -- An error of the check is logged only.
  unfoldable pub check_observed : Result Bool → Step S (Unit {0})
  unfolding keep_waiting
  check_observed (err e) = pure tt
  check_observed (ok true) = pure tt
  check_observed (ok false) =
      keep_waiting (msg "CPMS controller has not yet processed the spec update") 0

  -- The monitoring period, which starts with the phase. A start in the future counts as one just now.
  unfoldable pub monitor : Option Time → Step S (Unit {0})
  unfolding keep_waiting
  monitor none = pure tt
  monitor (some started) = do
    now ← call (gets executor.kube_client.now) []
    let elapsed = now - started
    if ltb elapsed five_minutes
        then keep_waiting
            (lit "Monitoring rollout stability ("
              ∷ duration (truncated elapsed)
              ∷ lit " / "
              ∷ duration five_minutes
              ∷ lit " elapsed)"
              ∷ [])
            50
        else pure tt

  unfoldable pub after_status : Migration → Bool × Int32 × Int32 × Int32 → Step S PhaseEnd
  unfolding monitor keep_waiting
  after_status m (false, replicas, updated, ready) =
      keep_waiting
        (lit "Waiting for control plane rollout: "
          ∷ number updated
          ∷ lit "/"
          ∷ number replicas
          ∷ lit " updated, "
          ∷ number ready
          ∷ lit "/"
          ∷ number replicas
          ∷ lit " ready"
          ∷ [])
        (if lt 0 replicas then executor.share ready replicas 100 else 0)
  after_status m (true, replicas, updated, ready) = do
    monitor (start_of m.status.current_phase_state)
    info (msg "Control plane rollout completed successfully")
    finish PhaseStatus.completed (msg "Successfully updated CPMS and rolled out control plane") 100
        0 none

  unfoldable pub execute : Migration → Step S PhaseEnd
  unfolding start check_observed after_status
  execute m = do
    if resumes recreate_cpms m.status.current_phase_state then pure tt else start m
    info (msg "Checking control plane rollout status")
    observed ← try (is_cpms_generation_observed executor.machine_manager)
    check_observed observed
    status ←
        call (check_control_plane_rollout_status executor.machine_manager)
          (msg "Failed to check control plane rollout status: ")
    after_status m status

  -- The error of the deletion is logged only.
  unfoldable pub restore_found : Result BackupManifest → Exec S (Unit {0})
  restore_found (err e) = raise e
  restore_found (ok b) =
      and_then (attempt (delete_control_plane_machine_set executor.machine_manager))
        (λ deleted. restore_resource executor.restore_manager b)

  unfoldable pub rollback : Migration → Exec S (Unit {0})
  unfolding restore_found
  rollback m = restore_found (
      get_backup m.status.backup_manifests "ControlPlaneMachineSet" cpms_name machine_api_namespace)

  unfoldable pub recreate_cpms_body : PhaseBody S
  unfolding execute rollback run roll_back
  recreate_cpms_body = record {
    validate = λ m. pure_exec tt;
    execute = λ m. run (execute m) m;
    rollback = λ m. roll_back (rollback m) m;
  }

-- ===== src/CsiMigration/Pipeline.antt =====
-- The loop of `Execute`: the seven steps of one volume, with the counters and the log.
use openshift_vsphere_migrat.Base.{
  String, Bool, true, false, List, [], ◌∷◌, ◌++◌, Message, msg, lit, GoError, error_text, Result,
  ok, err, if◌then◌else◌,
}
use openshift_vsphere_migrat.Base.Exec.{Exec, ◌>>=◌, ◌>>◌}
use openshift_vsphere_migrat.Base.Int32.{Int32, add}
use openshift_vsphere_migrat.Api.{
  PvStatus, PvMigrationState, LogLevel, LogEntry, FailureDomain, Migration, migrate_csi_volumes,
  phase_string,
}
use openshift_vsphere_migrat.Executor.{add_log}
use openshift_vsphere_migrat.Volumes.{update_pv_reclaim_policy}
use openshift_vsphere_migrat.CsiMigration.Environment.{Environment}
use openshift_vsphere_migrat.CsiMigration.Exec.{Volume, on_world, modify, get_volume}
use openshift_vsphere_migrat.CsiMigration.Quiesce.{quiesce_volume}
use openshift_vsphere_migrat.CsiMigration.Detach.{delete_volume_claim}
use openshift_vsphere_migrat.CsiMigration.Relocate.{relocate_volume}
use openshift_vsphere_migrat.CsiMigration.Restore.{
  register_volume, update_pv_and_clear_claim_ref, restore_pvc_and_workloads,
}

-- `MigratedVolumes` and `FailedVolumes` of the status, the phase's log, and the world.
pub record Progress (S : Type 0) : Type 0 where
  pub migrated : Int32
  pub failed : Int32
  pub logs : List LogEntry
  pub world : S

abbrev pub is_pending : PvStatus → Bool
is_pending PvStatus.pending = true
is_pending _ = false

abbrev pub is_retain_set : PvStatus → Bool
is_retain_set PvStatus.retain_set = true
is_retain_set _ = false

abbrev pub is_quiesced : PvStatus → Bool
is_quiesced PvStatus.quiesced = true
is_quiesced _ = false

abbrev pub is_pvc_deleted : PvStatus → Bool
is_pvc_deleted PvStatus.pvc_deleted = true
is_pvc_deleted _ = false

abbrev pub is_relocated : PvStatus → Bool
is_relocated PvStatus.relocated = true
is_relocated _ = false

abbrev pub is_registered : PvStatus → Bool
is_registered PvStatus.registered = true
is_registered _ = false

abbrev pub is_pv_updated : PvStatus → Bool
is_pv_updated PvStatus.pv_updated = true
is_pv_updated _ = false

abbrev pub is_complete : PvStatus → Bool
is_complete PvStatus.complete = true
is_complete _ = false

abbrev pub is_failed : PvStatus → Bool
is_failed PvStatus.failed = true
is_failed _ = false

-- A volume that the loop skips.
abbrev pub is_done : PvStatus → Bool
is_done PvStatus.complete = true
is_done PvStatus.failed = true
is_done _ = false

abbrev Flow : Type 0 → Type 0
Flow S = PvMigrationState × Progress S

-- What the seven steps differ in: the status they serve, their operation, what they log.
pub record Step (S : Type 0) : Type 0 where
  pub serves : PvStatus → Bool
  pub operation : Exec (Volume S) (Unit {0})
  pub failure : Message
  pub failure_log : PvMigrationState → GoError → Message
  -- Ends the warning about workloads that remain scaled down, where the step has one.
  pub warning : List Message
  pub success_log : PvMigrationState → Message

abbrev failed_message : Message → PvMigrationState → GoError → Message
failed_message what pv e = what ++ error_text e

abbrev about : String → PvMigrationState → String → Message
about before pv rest = lit before ∷ lit pv.pv_name ∷ lit rest ∷ []

module _ {S : Type 0} (env : Environment S) where
  -- One line of the phase's log, at the world's time.
  unfoldable pub log : LogLevel → Message → Progress S → Progress S
  log level message p = record p {
    logs = add_log (env.client.now p.world) p.logs level message (phase_string migrate_csi_volumes);
  }

  unfoldable pub warn : PvMigrationState → List Message → Progress S → Progress S
  unfolding log
  warn pv [] p = p
  warn pv (w ∷ ws) p =
      log LogLevel.warning
        (lit "Workloads for PV " ∷ lit pv.pv_name ∷ lit " remain scaled down" ∷ w) p

  -- A step's failure: the volume is marked, counted and logged, and the loop continues.
  unfoldable pub fail_volume : Step S → GoError → PvMigrationState → Progress S → Flow S
  unfolding log warn
  fail_volume step e pv p = (
    record pv { status = PvStatus.failed; message = step.failure ++ error_text e },
    warn pv step.warning
        (log LogLevel.error (step.failure_log pv e) (record p { failed = add p.failed 1 })),
  )

  unfoldable pub after_step :
      Step S
      → (PvMigrationState → Progress S → Flow S)
      → Progress S
      → Result (Unit {0}) × Volume S
      → Flow S
  unfolding fail_volume
  after_step step rest p (err e, (pv, s)) = fail_volume step e pv (record p { world = s })
  after_step step rest p (ok u, (pv, s)) =
      rest pv (log LogLevel.info (step.success_log pv) (record p { world = s }))

  unfoldable pub run_step :
      Step S → (PvMigrationState → Progress S → Flow S) → PvMigrationState → Progress S → Flow S
  unfolding after_step
  run_step step rest pv p =
      if step.serves pv.status
      then after_step step rest p (step.operation (pv, p.world))
      else rest pv p

  unfoldable pub retain : Exec (Volume S) (Unit {0})
  retain = do
    pv ← get_volume
    policy ← on_world (update_pv_reclaim_policy env.client pv.pv_name "Retain")
    modify (λ pv. record pv { original_reclaim_policy = policy; status = PvStatus.retain_set })

  unfoldable pub retain_step : Step S
  unfolding retain
  retain_step = record {
    serves = is_pending;
    operation = retain;
    failure = msg "Failed to set PV reclaim policy to Retain: ";
    failure_log = failed_message (msg "Failed to set PV reclaim policy to Retain: ");
    warning = [];
    success_log = λ pv.
        about "Set PV " pv " reclaim policy to Retain (was "
        ++ lit pv.original_reclaim_policy ∷ lit ")" ∷ [];
  }

  unfoldable pub quiesce_step : Step S
  quiesce_step = record {
    serves = is_retain_set;
    operation = quiesce_volume env;
    failure = msg "Failed to quiesce workloads: ";
    failure_log = failed_message (msg "Failed to quiesce workloads: ");
    warning = [];
    success_log = λ pv.
        about "Quiesced workloads for PV " pv " (workloadType="
        ++ lit pv.workload_type ∷ lit ")" ∷ [];
  }

  unfoldable pub delete_step : Step S
  delete_step = record {
    serves = is_quiesced;
    operation = delete_volume_claim env;
    failure = msg "Failed to delete PVC: ";
    failure_log = failed_message (msg "Failed to delete PVC: ");
    warning = msg " - PVC deletion failed" ∷ [];
    success_log = λ pv. lit "Deleted PVC for PV " ∷ lit pv.pv_name ∷ [];
  }

  unfoldable pub relocate_step : FailureDomain → Migration → Step S
  relocate_step fd m = record {
    serves = is_pvc_deleted;
    operation = relocate_volume env fd m;
    failure = msg "Failed to relocate volume: ";
    failure_log = failed_message (msg "Failed to relocate volume: ");
    warning = msg " due to migration failure - manual intervention required" ∷ [];
    success_log = λ pv. about "Relocated PV " pv " to target vCenter";
  }

  unfoldable pub register_step : FailureDomain → Step S
  register_step fd = record {
    serves = is_relocated;
    operation = register_volume env fd;
    failure = msg "Failed to register volume with CNS: ";
    failure_log = failed_message (msg "Failed to register volume with CNS: ");
    warning = msg " - CNS registration failed" ∷ [];
    success_log = λ pv. about "Registered PV " pv " with target CNS";
  }

  unfoldable pub update_step : Step S
  update_step = record {
    serves = is_registered;
    operation = update_pv_and_clear_claim_ref env;
    failure = msg "Failed to update PV: ";
    failure_log = failed_message (msg "Failed to update PV: ");
    warning = msg " - PV update failed" ∷ [];
    success_log = λ pv. about "Updated PV " pv " volumeHandle and cleared claimRef";
  }

  unfoldable pub restore_step : Step S
  restore_step = record {
    serves = is_pv_updated;
    operation =
        restore_pvc_and_workloads env
        >> modify (λ pv. record pv {
          status = PvStatus.complete;
          message = msg "Volume migrated successfully";
        });
    failure = msg "Failed to restore PVC/workloads: ";
    failure_log = λ pv e.
        about "Failed to restore PVC/workloads for PV " pv ": "
        ++ error_text e
        ++ msg " - manual intervention required";
    warning = [];
    success_log = λ pv. lit "Successfully migrated PV " ∷ lit pv.pv_name ∷ [];
  }

  unfoldable pub count_migrated : PvMigrationState → Progress S → Flow S
  count_migrated pv p = (pv, record p { migrated = add p.migrated 1 })

  -- The last step counts the volume that it completes.
  unfoldable pub restore_and_count : PvMigrationState → Progress S → Flow S
  unfolding after_step restore_step count_migrated
  restore_and_count pv p =
      if restore_step.serves pv.status
      then after_step restore_step count_migrated p (restore_step.operation (pv, p.world))
      else (pv, p)

  -- The steps from each one on, and from the first.
  unfoldable pub update_on : PvMigrationState → Progress S → Flow S
  unfolding run_step update_step
  update_on = run_step update_step restore_and_count

  unfoldable pub register_on : FailureDomain → PvMigrationState → Progress S → Flow S
  unfolding run_step register_step
  register_on fd = run_step (register_step fd) update_on

  unfoldable pub relocate_on : FailureDomain → Migration → PvMigrationState → Progress S → Flow S
  unfolding run_step relocate_step
  relocate_on fd m = run_step (relocate_step fd m) (register_on fd)

  unfoldable pub delete_on : FailureDomain → Migration → PvMigrationState → Progress S → Flow S
  unfolding run_step delete_step
  delete_on fd m = run_step delete_step (relocate_on fd m)

  unfoldable pub quiesce_on : FailureDomain → Migration → PvMigrationState → Progress S → Flow S
  unfolding run_step quiesce_step
  quiesce_on fd m = run_step quiesce_step (delete_on fd m)

  unfoldable pub process_steps : FailureDomain → Migration → PvMigrationState → Progress S → Flow S
  unfolding run_step retain_step
  process_steps fd m = run_step retain_step (quiesce_on fd m)

  -- One turn of the loop.
  unfoldable pub process_volume : FailureDomain → Migration → PvMigrationState → Progress S → Flow S
  unfolding process_steps
  process_volume fd m pv p = if is_done pv.status then (pv, p) else process_steps fd m pv p

  unfoldable pub process_volumes :
      FailureDomain
      → Migration
      → List PvMigrationState
      → Progress S
      → List PvMigrationState × Progress S
  unfolding process_volume
  process_volumes fd m [] p = ([], p)
  process_volumes fd m (pv ∷ pvs) p =
      let (pv', p') = process_volume fd m pv p in
      let (pvs', p'') = process_volumes fd m pvs p' in (pv' ∷ pvs', p'')

-- ===== src/Reconciler.antt =====
-- `syncMigration` of pkg/controller/reconciler.go: one reconciliation of one migration object. It
-- returns the error, the object as it stands in memory, and the world.
pub mod Phases
pub mod Outcomes
pub mod Steps
pub mod Approval
pub mod Coverage
pub mod Frame
pub mod Run
pub mod Completion
use openshift_vsphere_migrat.Base.{
  String, Bool, true, false, List, [], ◌∷◌, Option, none, some, Message, msg, lit, GoError, errorf,
  error_text, Result, ok, err, if◌then◌else◌, ◌==◌, ◌&&◌, not, ◌++◌,
}
use openshift_vsphere_migrat.Api.{
  Time, MigrationPhase, no_phase, preflight, completed, failed, phase_string, phase_eq,
  MigrationState, PhaseStatus, is_status_running, PhaseState, Migration, condition_reconciled,
  condition_progressing, condition_true, condition_false, reason_reconcile_succeeded,
  reason_reconcile_failed, reason_progressing, reason_completed,
}
use openshift_vsphere_migrat.Conditions.{set_condition}
use openshift_vsphere_migrat.Kube.{Client}
use openshift_vsphere_migrat.Executor.{PhaseResult, Phase, execute_phase}
use openshift_vsphere_migrat.StateMachine.{
  get_next_phase, should_execute_phase, record_phase_completion, initiate_rollback,
  mark_phase_for_approval,
}
use openshift_vsphere_migrat.Reconciler.Phases.{
  PhaseBodies, get_phase_implementation, get_all_phases,
}

-- What a reconciliation returns, beside the object that it wrote.
abbrev pub Synced : Type 0 → Type 0
Synced S = Option GoError × Migration × S

-- A status that has no phase yet is set up for the first one.
unfoldable pub initialize_status : Time → Migration → Migration
initialize_status now m =
    if m.status.phase == no_phase
    then record m {
      status = record m.status {
        phase = preflight;
        phase_history = [];
        backup_manifests = [];
        start_time = some now;
      };
    }
    else m

-- The start time of a phase that goes on: the recorded one, where there is one.
running_start : MigrationPhase → Time → Option PhaseState → Time
running_start phase now none = now
running_start phase now (some state) =
    if state.name == phase then elim state.start_time [ none ↦ now | some t ↦ t ] else now

-- The phase reported that it is still running.
pub keep_running : Time → MigrationPhase → PhaseResult → Migration → Migration
unfolding running_start
keep_running now phase result m =
    let state : PhaseState = record {
      name = phase;
      status = PhaseStatus.running;
      progress = result.progress;
      message = result.message;
      requires_approval = false;
      approved = false;
      start_time = some (running_start phase now m.status.current_phase_state);
      last_heartbeat = some now;
    } in
    set_condition now (record m { status = record m.status { current_phase_state = some state } })
      condition_progressing condition_true reason_progressing result.message

-- All phases are done.
pub finish_migration : Time → Migration → Migration
finish_migration now m =
    set_condition now
      (set_condition now
        (record m { status = record m.status { phase = completed; completion_time = some now } })
        condition_reconciled condition_true reason_completed
        (msg "Migration completed successfully"))
      condition_progressing condition_false reason_completed (msg "Migration completed")

pub move_on : Time → MigrationPhase → Migration → Migration
move_on now next m =
    set_condition now (record m { status = record m.status { phase = next } }) condition_reconciled
      condition_true reason_reconcile_succeeded
      (lit "Moved to phase " ∷ lit (phase_string next) ∷ [])

pub advance_to : {S : Type 0} → Time → Result MigrationPhase → Migration → S → Synced S
unfolding finish_migration move_on
advance_to now (err e) m s = (some e, m, s)
advance_to now (ok next) m s =
    (none, if next == completed then finish_migration now m else move_on now next m, s)

-- The phase ended with any status but Running: it is recorded, and the migration moves on.
pub complete_phase : {S : Type 0} → Time → MigrationPhase → PhaseResult → Migration → S → Synced S
unfolding advance_to
complete_phase now phase result m s =
    let m' = record_phase_completion now m phase result in advance_to now (get_next_phase m') m' s

module _ {S : Type 0} (client : Client S) (bodies : PhaseBodies S) where
  -- The automatic rollback's error is logged only.
  pub roll_back_on_failure : Bool → Migration → S → Migration × S
  roll_back_on_failure false m s = (m, s)
  roll_back_on_failure true m s =
      let (e, m', s') = initiate_rollback client (get_all_phases bodies) m s in (m', s')

  -- The phase returned an error.
  pub fail_phase : MigrationPhase → PhaseResult → GoError → Migration → S → Synced S
  unfolding roll_back_on_failure
  fail_phase phase result e m s =
      let recorded = record_phase_completion (client.now s) m phase result in
      let marked = record recorded { status = record recorded.status { phase = failed } } in
      let (m', s') = roll_back_on_failure m.spec.rollback_on_failure marked s in
      (
        some e,
        set_condition (client.now s') m' condition_reconciled condition_false
            reason_reconcile_failed
            (lit "Phase " ∷ lit (phase_string phase) ∷ lit " failed: " ∷ error_text e),
        s',
      )

  pub after_execution : MigrationPhase → PhaseResult × Option GoError × Migration × S → Synced S
  unfolding fail_phase keep_running complete_phase
  after_execution phase (result, some e, m, s) = fail_phase phase result e m s
  after_execution phase (result, none, m, s) =
      if is_status_running result.status
      then (none, keep_running (client.now s) phase result m, s)
      else complete_phase (client.now s) phase result m s

  abbrev executing : MigrationPhase → Message
  executing phase = lit "Executing phase " ∷ lit (phase_string phase) ∷ []

  -- The approval gate, and the execution behind it.
  try_phase : Phase S → Migration → S → Synced S
  unfolding after_execution
  try_phase phase m s =
      if should_execute_phase m m.status.phase
      then after_execution m.status.phase (
          execute_phase client phase
            (set_condition (client.now s) m condition_progressing condition_true reason_progressing
              (executing m.status.phase))
            s)
      else (
        none,
        set_condition (client.now s)
            (mark_phase_for_approval m m.status.phase (msg "Waiting for approval"))
            condition_reconciled condition_true reason_reconcile_succeeded
            (msg "Waiting for phase approval"),
        s,
      )

  sync_phase : Option (Phase S) → Migration → S → Synced S
  unfolding try_phase
  sync_phase none m s = (
    some (
        errorf (lit "no implementation found for phase " ∷ lit (phase_string m.status.phase) ∷ [])),
    m,
    s,
  )
  sync_phase (some phase) m s = try_phase phase m s

  -- What follows the switch over the migration's state.
  sync_running : Migration → S → Synced S
  unfolding sync_phase
  sync_running m s =
      if m.status.phase == completed
      then (
        none,
        set_condition (client.now s) m condition_reconciled condition_true reason_completed
            (msg "Migration completed successfully"),
        s,
      )
      else sync_phase (get_phase_implementation bodies m.status.phase) m s

  abbrev idle : Message → Migration → S → Synced S
  idle message m s = (
    none,
    set_condition (client.now s) m condition_reconciled condition_true reason_reconcile_succeeded
        message,
    s,
  )

  after_rollback : Synced S → Synced S
  after_rollback (some e, m, s) = (
    some e,
    set_condition (client.now s) m condition_reconciled condition_false reason_reconcile_failed
        (lit "Rollback failed: " ∷ error_text e),
    s,
  )
  after_rollback (none, m, s) = idle (msg "Rollback completed") m s

  -- The switch has no default: any other state goes on as Running does.
  pub sync_state : MigrationState → Migration → S → Synced S
  unfolding after_rollback sync_running
  sync_state MigrationState.pending m s = idle (msg "Migration is pending") m s
  sync_state MigrationState.paused m s = idle (msg "Migration is paused") m s
  sync_state MigrationState.rollback m s =
      after_rollback (initiate_rollback client (get_all_phases bodies) m s)
  sync_state MigrationState.running m s = sync_running m s
  sync_state (MigrationState.other t) m s = sync_running m s

  unfoldable pub sync_migration : Migration → S → Synced S
  unfolding initialize_status sync_state
  sync_migration m s = sync_state m.spec.state (initialize_status (client.now s) m) s

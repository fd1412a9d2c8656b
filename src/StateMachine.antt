-- ===== src/StateMachine.antt =====
-- pkg/controller/state/state_machine.go. A method that writes `*migration` returns the new object.
pub mod Order
pub mod History
pub mod Approval
pub mod View
pub mod Rollback
use openshift_vsphere_migrat.Base.{
  ℕ, String, Bool, true, false, List, [], ◌∷◌, ◌++◌, reverse, ◌*◌, Option, none, some, Message, msg,
  lit, GoError, errorf, Result, ok, err, if◌then◌else◌, ◌==◌, ◌&&◌, not, nat_eq, ltb,
}
use openshift_vsphere_migrat.Base.Exec.{Exec}
use openshift_vsphere_migrat.Base.Int32.{Int32}
use openshift_vsphere_migrat.Api.{
  Time, Duration, MigrationPhase, no_phase, preflight, backup, disable_cvo, update_secrets,
  create_tags, create_folder, delete_cpms, update_infrastructure, update_config, restart_pods,
  monitor_health, create_workers, recreate_cpms, scale_old_machines, cleanup, verify, completed,
  failed, rolling_back, rollback_completed, phase_string, phase_eq, PhaseStatus, is_completed,
  is_running, is_manual, is_waiting, any_waiting, PhaseState, PhaseHistoryEntry, Migration,
  Artifacts, with_artifacts,
}
use openshift_vsphere_migrat.Kube.{Client, Workload}
use openshift_vsphere_migrat.Executor.{PhaseResult, Phase}

-- The order that `NewStateMachine` sets up. `MigrateCSIVolumes` is commented out of it.
abbrev pub phase_order : List MigrationPhase
phase_order =
    preflight ∷ backup ∷ disable_cvo ∷ update_secrets ∷ create_tags ∷ create_folder ∷ delete_cpms
    ∷ update_infrastructure ∷ update_config ∷ restart_pods ∷ monitor_health ∷ create_workers
    ∷ recreate_cpms ∷ scale_old_machines ∷ cleanup ∷ verify ∷ []

-- The loop of `GetNextPhase`: the phase behind the first occurrence of the current one.
phase_after : MigrationPhase → List MigrationPhase → Result MigrationPhase
phase_after current [] =
    err (errorf (lit "unknown current phase: " ∷ lit (phase_string current) ∷ []))
phase_after current (p ∷ []) = if p == current then ok completed else phase_after current []
phase_after current (p ∷ q ∷ rest) = if p == current then ok q else phase_after current (q ∷ rest)

unfoldable pub next_of : MigrationPhase → Result MigrationPhase
unfolding phase_after
next_of current =
    if current == no_phase
    then ok preflight
    else if current == completed
    then ok no_phase
    else phase_after current phase_order

unfoldable pub get_next_phase : Migration → Result MigrationPhase
unfolding next_of
get_next_phase m = next_of m.status.phase

abbrev pub waits_for : MigrationPhase → Option PhaseState → Bool
waits_for phase none = false
waits_for phase (some state) = state.name == phase && is_waiting state

unfoldable pub should_execute_phase : Migration → MigrationPhase → Bool
should_execute_phase m phase =
    if not (is_running m.spec.state)
    then false
    else if is_manual m.spec.approval_mode && waits_for phase m.status.current_phase_state
    then false
    else true

-- An entry of the phase that has not been completed.
abbrev pub is_open : MigrationPhase → PhaseHistoryEntry → Bool
is_open phase entry =
    entry.phase == phase && elim entry.completion_time [ none ↦ true | some t ↦ false ]

-- The start time of the first open entry, or the default.
open_start : MigrationPhase → Time → List PhaseHistoryEntry → Time
open_start phase default [] = default
open_start phase default (e ∷ es) =
    if is_open phase e then e.start_time else open_start phase default es

abbrev start_of : MigrationPhase → Time → Option PhaseState → List PhaseHistoryEntry → Time
start_of phase now none history = now
start_of phase now (some state) history = open_start phase now history

-- The first open entry is written over, or the entry is added.
close_entry : PhaseHistoryEntry → List PhaseHistoryEntry → List PhaseHistoryEntry
close_entry entry [] = entry ∷ []
close_entry entry (e ∷ es) = if is_open entry.phase e then entry ∷ es else e ∷ close_entry entry es

unfoldable pub record_phase_completion : Time → Migration → MigrationPhase → PhaseResult → Migration
unfolding open_start close_entry
record_phase_completion now m phase result =
    let entry : PhaseHistoryEntry = record {
      phase = phase;
      status = result.status;
      start_time = start_of phase now m.status.current_phase_state m.status.phase_history;
      completion_time = some now;
      message = result.message;
      logs = result.logs;
    } in
    record m {
      status = record m.status {
        phase_history = close_entry entry m.status.phase_history;
        current_phase_state = none;
      };
    }

unfoldable pub mark_phase_for_approval : Migration → MigrationPhase → Message → Migration
mark_phase_for_approval m phase message =
    let state : PhaseState = record {
      name = phase;
      status = PhaseStatus.pending;
      progress = 0;
      message = message;
      requires_approval = true;
      approved = false;
      start_time = none;
      last_heartbeat = none;
    } in
    record m { status = record m.status { current_phase_state = some state } }

approve_state : MigrationPhase → Option PhaseState → Result PhaseState
approve_state phase none = err (errorf (msg "no current phase state"))
approve_state phase (some state) =
    if not (state.name == phase)
    then err (
        errorf (
          lit "current phase is "
          ∷ lit (phase_string state.name)
          ∷ lit ", not "
          ∷ lit (phase_string phase)
          ∷ []))
    else if not state.requires_approval
    then err (errorf (msg "phase does not require approval"))
    else ok (record state { approved = true })

abbrev put_state : Migration → Result PhaseState → Migration × Option GoError
put_state m (err e) = (m, some e)
put_state m (ok state) =
    (record m { status = record m.status { current_phase_state = some state } }, none)

unfoldable pub approve_phase : Migration → MigrationPhase → Migration × Option GoError
unfolding approve_state
approve_phase m phase = put_state m (approve_state phase m.status.current_phase_state)

abbrev progress_state : Int32 → Message → Option PhaseState → Option PhaseState
progress_state progress message none = none
progress_state progress message (some state) =
    some (record state { progress = progress; message = message })

unfoldable pub update_phase_progress : Migration → Int32 → Message → Migration
update_phase_progress m progress message = record m {
  status = record m.status {
    current_phase_state = progress_state progress message m.status.current_phase_state;
  };
}

-- `time.Second`, in nanoseconds.
abbrev pub second : Duration
second = 1000000000

abbrev requeue_of : Option PhaseResult → Duration
requeue_of none = 0
requeue_of (some result) = result.requeue_after

unfoldable pub should_requeue : Migration → Option PhaseResult → Bool × Duration
should_requeue m result =
    if ltb 0 (requeue_of result)
    then (true, requeue_of result)
    else if any_waiting m.status.current_phase_state
    then (true, 30 * second)
    else if is_running m.spec.state
        && not (m.status.phase == completed)
        && not (m.status.phase == failed)
    then (true, 10 * second)
    else (false, 0)

module _ {S : Type 0} where
  -- The first implementation in the list that has the phase's name.
  unfoldable pub find_phase : MigrationPhase → List (Phase S) → Option (Phase S)
  find_phase phase [] = none
  find_phase phase (p ∷ ps) = if p.name == phase then some p else find_phase phase ps

  -- An error of a rollback is logged, and the loop goes on.
  roll_back_phase : Option (Phase S) → Migration → S → Migration × S
  roll_back_phase none m s = (m, s)
  roll_back_phase (some p) m s = let (e, a, s') = p.rollback m s in (with_artifacts m a, s')

  -- One round of the loop: failed and skipped phases are passed over.
  roll_back_entry : List (Phase S) → PhaseHistoryEntry → Migration → S → Migration × S
  unfolding roll_back_phase find_phase
  roll_back_entry phases e m s =
      if is_completed e.status then roll_back_phase (find_phase e.phase phases) m s else (m, s)

  -- The loop over the history from its end, given the history reversed.
  roll_back_entries : List (Phase S) → List PhaseHistoryEntry → Migration → S → Migration × S
  unfolding roll_back_entry
  roll_back_entries phases [] m s = (m, s)
  roll_back_entries phases (e ∷ es) m s =
      let (m', s') = roll_back_entry phases e m s in roll_back_entries phases es m' s'

abbrev pub cvo_namespace : String
cvo_namespace = "openshift-cluster-version"

abbrev pub cvo_name : String
cvo_name = "cluster-version-operator"

abbrev pub scaled_to_zero : Option Int32 → Bool
scaled_to_zero none = false
scaled_to_zero (some n) = n == 0

module _ {S : Type 0} (client : Client S) where
  -- The deployment is written only where it has been scaled to zero.
  enable_cvo_after : Result Workload × S → S
  enable_cvo_after (err e, s) = s
  enable_cvo_after (ok d, s) =
      if scaled_to_zero d.replicas
      then (client.deployments.update cvo_namespace (record d { replicas = some 1 }) s).1
      else s

  -- The last step of a rollback. Its errors are logged only.
  pub enable_cvo : S → S
  unfolding enable_cvo_after
  enable_cvo s = enable_cvo_after (client.deployments.get cvo_namespace cvo_name s)

  -- It returns nil on every path.
  unfoldable pub initiate_rollback : List (Phase S) → Migration → S → Option GoError × Migration × S
  unfolding enable_cvo roll_back_entries
  initiate_rollback phases m s =
      let started = record m { status = record m.status { phase = rolling_back } } in
      let (m', s') = roll_back_entries phases (reverse m.status.phase_history) started s in
      let s'' = enable_cvo s' in
      let done = record m' {
        status = record m'.status {
          phase = rollback_completed;
          completion_time = some (client.now s'');
        };
      } in
      (none, done, s'')

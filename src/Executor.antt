-- ===== src/Executor.antt =====
-- pkg/controller/phases/phase.go: the phase interface, its results, and `ExecutePhase`.
pub mod Frame
pub mod Success
pub mod View
pub mod Waiting
use openshift_vsphere_migrat.Base.{
  ℕ, String, Bool, true, false, List, [], ◌∷◌, ◌++◌, Option, none, some, Message, msg, lit, GoError,
  error_text, Result, ok, err, if◌then◌else◌, ◌==◌, ◌&&◌, not,
}
use openshift_vsphere_migrat.Base.Exec.{Exec}
use openshift_vsphere_migrat.Base.Int32.{Int32}
use openshift_vsphere_migrat.Api.{
  Time, Duration, MigrationPhase, phase_string, phase_eq, PhaseStatus, is_status_running, LogLevel,
  LogEntry, PhaseState, Migration, Artifacts, with_artifacts,
}
use openshift_vsphere_migrat.Kube.{Client}

-- `Status`, `Message`, `Progress`, `Logs`, `RequeueAfter`.
pub record PhaseResult : Type 0 where
  pub status : PhaseStatus
  pub message : Message
  pub progress : Int32
  pub logs : List LogEntry
  pub requeue_after : Duration

-- The interface `Phase`. A phase reads the migration and returns what it writes of it.
pub record Phase (S : Type 0) : Type 0 where
  pub name : MigrationPhase
  pub validate : Migration → Exec S (Unit {0})
  pub execute : Migration → S → PhaseResult × Option GoError × Artifacts × S
  pub rollback : Migration → S → Option GoError × Artifacts × S

abbrev pub log_entry : Time → LogLevel → Message → String → LogEntry
log_entry now level message component = record {
  timestamp = now;
  level = level;
  message = message;
  component = component;
}

unfoldable pub add_log : Time → List LogEntry → LogLevel → Message → String → List LogEntry
add_log now logs level message component = logs ++ log_entry now level message component ∷ []

-- `CurrentPhaseState` shows this phase as running: a resumed execution.
unfoldable pub resumes : MigrationPhase → Option PhaseState → Bool
resumes phase none = false
resumes phase (some state) = state.name == phase && is_status_running state.status

abbrev pub pending_state : MigrationPhase → PhaseState
pending_state phase = record {
  name = phase;
  status = PhaseStatus.pending;
  progress = 0;
  message = msg "Pending phase";
  requires_approval = false;
  approved = false;
  start_time = none;
  last_heartbeat = none;
}

-- A phase state is made for a new execution, and kept where a running one goes on.
pub enter_phase : MigrationPhase → Migration → Migration
unfolding resumes
enter_phase phase m =
    if resumes phase m.status.current_phase_state
    then m
    else record m { status = record m.status { current_phase_state = some (pending_state phase) } }

-- The result for a phase that did not validate or did not execute.
pub failure_result : Message → GoError → LogEntry → Time → MigrationPhase → PhaseResult
failure_result what e start now phase = record {
  status = PhaseStatus.failed;
  message = what ++ error_text e;
  progress = 0;
  logs = start ∷ log_entry now LogLevel.error (what ++ error_text e) (phase_string phase) ∷ [];
  requeue_after = 0;
}

module _ {S : Type 0} (client : Client S) where
  -- What follows `phase.Execute`: a failure replaces the phase's result by one of its own.
  finish_phase :
      MigrationPhase
      → LogEntry
      → PhaseResult × Option GoError × Artifacts × S
      → Migration
      → PhaseResult × Option GoError × Migration × S
  finish_phase phase start (result, some e, a, s) m = (
    failure_result (msg "Execution failed: ") e start (client.now s) phase,
    some e,
    with_artifacts m a,
    s,
  )
  finish_phase phase start (result, none, a, s) m =
      (record result { logs = start ∷ result.logs }, none, with_artifacts m a, s)

  -- What follows `phase.Validate`.
  run_phase :
      Phase S
      → LogEntry
      → Result (Unit {0}) × S
      → Migration
      → PhaseResult × Option GoError × Migration × S
  unfolding finish_phase
  run_phase phase start (err e, s) m =
      (failure_result (msg "Validation failed: ") e start (client.now s) phase.name, some e, m, s)
  run_phase phase start (ok u, s) m = finish_phase phase.name start (phase.execute m s) m

  unfoldable pub execute_phase :
      Phase S → Migration → S → PhaseResult × Option GoError × Migration × S
  unfolding run_phase enter_phase failure_result
  execute_phase phase m s =
      let m' = enter_phase phase.name m in
      let start =
        log_entry (client.now s) LogLevel.info (msg "Phase pending") (phase_string phase.name) in
      run_phase phase start (phase.validate m' s) m'

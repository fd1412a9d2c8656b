-- ===== src/Tests/StateMachine.antt =====
-- The state machine, the conditions and the executor on the concrete cluster.
use openshift_vsphere_migrat.Base.{
  ◌≡◌, refl, ◌≢◌, ◌+◌, ◌≤◌, true, false, List, [], ◌∷◌, ◌++◌, map, reverse, keep, none, some, msg,
  ok, if◌then◌else◌, ◌==◌, All, string_eq,
}
use openshift_vsphere_migrat.Api.{
  MigrationPhase, no_phase, preflight, backup, completed, rollback_completed, phase_eq, phase_beq,
  PhaseStatus, PhaseHistoryEntry, Migration, condition_true, condition_progressing,
  condition_reconciled,
}
use openshift_vsphere_migrat.Conditions.{set_condition, get_condition}
use openshift_vsphere_migrat.Conditions.Laws.{get_condition-set_condition}
use openshift_vsphere_migrat.Executor.{PhaseResult, execute_phase}
use openshift_vsphere_migrat.Reconciler.Phases.{make_phase, get_all_phases}
use openshift_vsphere_migrat.StateMachine.{
  get_next_phase, phase_order, should_execute_phase, mark_phase_for_approval, approve_phase,
  record_phase_completion, initiate_rollback,
}
use openshift_vsphere_migrat.StateMachine.Order.{
  index_of, behind, rank, get_next_phase_lem, get_next_phase-rank,
}
use openshift_vsphere_migrat.StateMachine.History.{
  IsClosed, completion_entry, record_phase_completion_lem,
}
use openshift_vsphere_migrat.StateMachine.Approval.{approve-mark}
use openshift_vsphere_migrat.StateMachine.Rollback.{
  SameRecord, initiate_rollback_lem, initiate_rollback-trace, is_rolled_back, Traces,
}
use openshift_vsphere_migrat.StateMachine.View.{IsQuiet}
use openshift_vsphere_migrat.Tests.World.{World, world, client, broken_bodies, fresh, manual}

abbrev done : PhaseResult
done = record {
  status = PhaseStatus.completed;
  message = msg "done";
  progress = 100;
  logs = [];
  requeue_after = 0;
}

abbrev at_phase : MigrationPhase → Migration → Migration
at_phase p m = record m { status = record m.status { phase = p } }

abbrev advanced : Migration
advanced = record fresh {
  status = record fresh.status {
    phase = MigrationPhase.disable_cvo;
    phase_history = completion_entry 10 preflight done ∷ completion_entry 20 backup done ∷ [];
  };
}

get_next_phase_lem_example : get_next_phase (at_phase backup fresh) ≡ (
    if backup == no_phase
    then ok preflight
    else if backup == completed
    then ok no_phase
    else behind phase_order (index_of backup phase_order) backup)
get_next_phase_lem_example = get_next_phase_lem (at_phase backup fresh)

after_backup : get_next_phase (at_phase backup fresh) ≡ ok MigrationPhase.disable_cvo
unfolding get_next_phase phase_beq
after_backup = refl

get_next_phase-rank_example :
    (rank MigrationPhase.disable_cvo ≡ rank backup + 1) × (rank MigrationPhase.disable_cvo ≤ 17)
get_next_phase-rank_example =
    get_next_phase-rank (at_phase backup fresh) MigrationPhase.disable_cvo (λ e. cc) after_backup

record_phase_completion_lem_example :
    let m' = record_phase_completion 30 advanced MigrationPhase.disable_cvo done in
    (m'.status.phase_history
      ≡ advanced.status.phase_history ++ completion_entry 30 MigrationPhase.disable_cvo done ∷ [])
    × (m'.status.current_phase_state ≡ none)
    × All IsClosed m'.status.phase_history
record_phase_completion_lem_example =
    record_phase_completion_lem 30 advanced MigrationPhase.disable_cvo done (λ e. cc, (λ e. cc, tt))

approve-mark_example :
    let marked = mark_phase_for_approval manual backup (msg "Waiting for approval") in
    let (approved, e) = approve_phase marked backup in
    (should_execute_phase marked backup ≡ false)
    × (e ≡ none)
    × (should_execute_phase approved backup ≡ true)
approve-mark_example = approve-mark manual backup (msg "Waiting for approval") refl refl

get_condition-set_condition_example :
    get_condition
      (set_condition 40 fresh condition_progressing condition_true "Progressing" (msg "on"))
      condition_reconciled
    ≡ (if condition_progressing == condition_reconciled
        then some (record {
          kind = condition_progressing;
          status = condition_true;
          reason = "Progressing";
          message = msg "on";
          last_transition_time = 40;
          observed_generation = 1;
        })
        else get_condition fresh condition_reconciled)
get_condition-set_condition_example =
    get_condition-set_condition 40 fresh condition_progressing condition_true "Progressing"
      (msg "on") condition_reconciled

abbrev conditioned : Migration
unfolding set_condition
conditioned = set_condition 40 fresh condition_progressing condition_true "Progressing" (msg "on")

fails_here :
    (execute_phase client (make_phase preflight broken_bodies.preflight_body) fresh world).1 ≢ none
unfolding execute_phase
fails_here = λ e. cc

initiate_rollback_lem_example :
    let (e, m', s') = initiate_rollback client (get_all_phases broken_bodies) advanced world in
    (e ≡ none)
    × (m'.status.phase ≡ rollback_completed)
    × (m'.status.completion_time ≡ some (client.now s'))
    × SameRecord m' advanced
initiate_rollback_lem_example =
    initiate_rollback_lem client (get_all_phases broken_bodies) advanced world

abbrev pub trace : World → List MigrationPhase
trace s = s.trace

trace-IsQuiet : IsQuiet trace client
trace-IsQuiet = record { get = λ namespace name s. refl; update = λ namespace d s. refl }

all_trace : All (Traces trace) (get_all_phases broken_bodies)
unfolding get_all_phases
all_trace = (
  λ m s. refl,
  (
    λ m s. refl,
    (
      λ m s. refl,
      (
        λ m s. refl,
        (
          λ m s. refl,
          (
            λ m s. refl,
            (
              λ m s. refl,
              (
                λ m s. refl,
                (
                  λ m s. refl,
                  (
                    λ m s. refl,
                    (
                      λ m s. refl,
                      (λ m s. refl, (λ m s. refl, (λ m s. refl, (λ m s. refl, (λ m s. refl, tt))))),
                    ),
                  ),
                ),
              ),
            ),
          ),
        ),
      ),
    ),
  ),
)

initiate_rollback-trace_example :
    trace (initiate_rollback client (get_all_phases broken_bodies) advanced world).2
    ≡ trace world
      ++ map
          (λ (e : PhaseHistoryEntry). e.phase)
          (reverse
            (keep (is_rolled_back (get_all_phases broken_bodies)) advanced.status.phase_history))
initiate_rollback-trace_example =
    initiate_rollback-trace trace client (get_all_phases broken_bodies) advanced world trace-IsQuiet
      all_trace

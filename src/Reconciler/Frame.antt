-- ===== src/Reconciler/Frame.antt =====
-- A view of the world that no phase and no call of the controller changes.
use openshift_vsphere_migrat.Base.{
  ◌≡◌, refl, ◌∙◌, Bool, true, false, Option, none, some, GoError, Result, ok, err, ◌==◌, Bool-cases,
  inl, inr, All,
}
use openshift_vsphere_migrat.Api.{
  Time, MigrationPhase, completed, failed, phase_eq, MigrationState, Migration, is_status_running,
  condition_progressing, condition_true, reason_progressing,
}
use openshift_vsphere_migrat.Conditions.{set_condition}
use openshift_vsphere_migrat.Kube.{Client}
use openshift_vsphere_migrat.Executor.{PhaseResult, Phase, execute_phase}
use openshift_vsphere_migrat.StateMachine.{
  should_execute_phase, initiate_rollback, record_phase_completion, get_next_phase,
}
use openshift_vsphere_migrat.StateMachine.View.{IsQuiet, initiate_rollback-view}
use openshift_vsphere_migrat.Executor.View.{KeepsView, execute_phase-view}
use openshift_vsphere_migrat.Reconciler.Phases.{
  PhaseBodies, get_phase_implementation, get_all_phases,
}
use openshift_vsphere_migrat.Reconciler.{
  initialize_status, roll_back_on_failure, advance_to, after_execution, executing, try_phase,
  sync_phase, sync_running, after_rollback, sync_state, sync_migration,
}

advance_to-view :
    {S V : Type 0} (view : S → V) (now : Time) (next : Result MigrationPhase) (m : Migration)
    (s : S)
    → view (advance_to now next m s).2 ≡ view s
unfolding advance_to
advance_to-view view now (err e) m s = refl
advance_to-view view now (ok q) m s = refl

module _ {S V : Type 0} (view : S → V) (client : Client S) (bodies : PhaseBodies S) where
  -- Neither the phases nor the calls of a rollback change the view.
  pub record IsFramed : Type 0 where
    pub executed :
        (p : MigrationPhase) (phase : Phase S)
        → get_phase_implementation bodies p ≡ some phase
        → KeepsView view phase
    pub listed : All (KeepsView view) (get_all_phases bodies)
    pub quiet : IsQuiet view client

  module _ (framed : IsFramed) where
    roll_back_on_failure-view :
        (b : Bool) (m : Migration) (s : S)
        → view (roll_back_on_failure client bodies b m s).1 ≡ view s
    unfolding roll_back_on_failure
    roll_back_on_failure-view false m s = refl
    roll_back_on_failure-view true m s =
        initiate_rollback-view view client (get_all_phases bodies) m s framed.quiet framed.listed

    after_execution-view :
        (p : MigrationPhase) (r : PhaseResult) (e : Option GoError) (m : Migration) (s : S)
        → view (after_execution client bodies p (r, e, m, s)).2 ≡ view s
    unfolding after_execution
    after_execution-view p r (some e) m s =
        roll_back_on_failure-view m.spec.rollback_on_failure
          (let recorded = record_phase_completion (client.now s) m p r in
            record recorded { status = record recorded.status { phase = failed } })
          s
    after_execution-view p r none m s = elim (Bool-cases (is_status_running r.status)) [
      | inl x ↦ rw x
      | inr x ↦ rw x (
          let m' = record_phase_completion (client.now s) m p r in
          advance_to-view view (client.now s) (get_next_phase m') m' s)
    ]

    try_phase-view :
        (phase : Phase S) (m : Migration) (s : S)
        → KeepsView view phase
        → view (try_phase client bodies phase m s).2 ≡ view s
    unfolding try_phase
    try_phase-view phase m s k = elim (Bool-cases (should_execute_phase m m.status.phase)) [
      | inl x ↦ rw x (
          let m₁ =
            set_condition (client.now s) m condition_progressing condition_true reason_progressing
              (executing client bodies m.status.phase) in
          let (r, e, m₂, s') = execute_phase client phase m₁ s in
          after_execution-view m.status.phase r e m₂ s'
          ∙ execute_phase-view view client phase m₁ s k)
      | inr x ↦ rw x
    ]

    sync_phase-view :
        (found : Option (Phase S)) (m : Migration) (s : S)
        → get_phase_implementation bodies m.status.phase ≡ found
        → view (sync_phase client bodies found m s).2 ≡ view s
    unfolding sync_phase
    sync_phase-view none m s h = refl
    sync_phase-view (some phase) m s h =
        try_phase-view phase m s (framed.executed m.status.phase phase h)

    sync_running-view : (m : Migration) (s : S) → view (sync_running client bodies m s).2 ≡ view s
    unfolding sync_running
    sync_running-view m s = elim (Bool-cases (m.status.phase == completed)) [
      | inl c ↦ rw c
      | inr c ↦ rw c (sync_phase-view (get_phase_implementation bodies m.status.phase) m s refl)
    ]

    after_rollback-view :
        (e : Option GoError) (m : Migration) (s : S)
        → view (after_rollback client bodies (e, m, s)).2 ≡ view s
    unfolding after_rollback
    after_rollback-view none m s = refl
    after_rollback-view (some e) m s = refl

    sync_state-view :
        (state : MigrationState) (m : Migration) (s : S)
        → view (sync_state client bodies state m s).2 ≡ view s
    unfolding sync_state
    sync_state-view MigrationState.pending m s = refl
    sync_state-view MigrationState.paused m s = refl
    sync_state-view MigrationState.rollback m s =
        let (e, m', s') = initiate_rollback client (get_all_phases bodies) m s in
        after_rollback-view e m' s'
        ∙ initiate_rollback-view view client (get_all_phases bodies) m s framed.quiet framed.listed
    sync_state-view MigrationState.running m s = sync_running-view m s
    sync_state-view (MigrationState.other t) m s = sync_running-view m s

    pub sync_migration-view :
        (m : Migration) (s : S) → view (sync_migration client bodies m s).2 ≡ view s
    unfolding sync_migration
    sync_migration-view m s = sync_state-view m.spec.state (initialize_status (client.now s) m) s

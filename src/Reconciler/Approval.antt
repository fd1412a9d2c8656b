-- ===== src/Reconciler/Approval.antt =====
-- Whether a reconciliation ever waits for an approval.
use openshift_vsphere_migrat.Base.{
  ◌≡◌, refl, Bool, true, false, Option, none, some, GoError, Result, ok, err, ◌==◌, arith,
  Bool-cases, inl, inr,
}
use openshift_vsphere_migrat.Api.{
  Time, MigrationPhase, no_phase, completed, failed, phase_eq, MigrationState, any_waiting,
  PhaseState, is_status_running, Migration, condition_progressing, condition_true,
  reason_progressing,
}
use openshift_vsphere_migrat.Conditions.{set_condition}
use openshift_vsphere_migrat.Kube.{Client}
use openshift_vsphere_migrat.Executor.{PhaseResult, Phase, execute_phase}
use openshift_vsphere_migrat.Executor.Waiting.{IsFree, execute_phase-IsFree}
use openshift_vsphere_migrat.StateMachine.{
  waits_for, should_execute_phase, record_phase_completion, get_next_phase,
}
use openshift_vsphere_migrat.StateMachine.Rollback.{initiate_rollback_lem}
use openshift_vsphere_migrat.Reconciler.Phases.{
  PhaseBodies, get_phase_implementation, get_all_phases,
}
use openshift_vsphere_migrat.Reconciler.{
  initialize_status, advance_to, roll_back_on_failure, after_execution, executing, try_phase,
  sync_phase, sync_running, sync_state, sync_migration,
}

waits_for_free :
    (p : MigrationPhase) (state : Option PhaseState)
    → any_waiting state ≡ false
    → waits_for p state ≡ false
waits_for_free p none h = refl
waits_for_free p (some state) h = ground arith

-- The gate lets every phase of a running migration through, in manual mode too.
should_execute-free :
    (m : Migration) (p : MigrationPhase)
    → m.spec.state ≡ MigrationState.running
    → IsFree m
    → should_execute_phase m p ≡ true
unfolding should_execute_phase
should_execute-free m p r h = ground (arith, waits_for_free p m.status.current_phase_state h)

advance_to-IsFree :
    {S : Type 0} (now : Time) (next : Result MigrationPhase) (m : Migration) (s : S)
    → IsFree m
    → IsFree (advance_to now next m s).1
unfolding advance_to set_condition
advance_to-IsFree now (err e) m s h = h
advance_to-IsFree now (ok q) m s h = elim (Bool-cases (q == completed)) [
  | inl c ↦ rw c h
  | inr c ↦ rw c h
]

module _ {S : Type 0} (client : Client S) (bodies : PhaseBodies S) where
  roll_back_on_failure-IsFree :
      (b : Bool) (m : Migration) (s : S)
      → IsFree m
      → IsFree (roll_back_on_failure client bodies b m s).0
  unfolding roll_back_on_failure
  roll_back_on_failure-IsFree false m s h = h
  roll_back_on_failure-IsFree true m s h =
      rw (initiate_rollback_lem client (get_all_phases bodies) m s).3.current_phase_state h

  after_execution-IsFree :
      (p : MigrationPhase) (r : PhaseResult) (e : Option GoError) (m : Migration) (s : S)
      → IsFree m
      → IsFree (after_execution client bodies p (r, e, m, s)).1
  unfolding after_execution set_condition record_phase_completion
  after_execution-IsFree p r (some e) m s h =
      roll_back_on_failure-IsFree m.spec.rollback_on_failure
        (let recorded = record_phase_completion (client.now s) m p r in
          record recorded { status = record recorded.status { phase = failed } })
        s refl
  after_execution-IsFree p r none m s h = elim (Bool-cases (is_status_running r.status)) [
    | inl x ↦ rw x refl
    | inr x ↦ rw x (
        let m' = record_phase_completion (client.now s) m p r in
        advance_to-IsFree (client.now s) (get_next_phase m') m' s refl)
  ]

  try_phase-IsFree :
      (phase : Phase S) (m : Migration) (s : S)
      → m.spec.state ≡ MigrationState.running
      → IsFree m
      → IsFree (try_phase client bodies phase m s).1
  unfolding try_phase set_condition
  try_phase-IsFree phase m s r h = rw (should_execute-free m m.status.phase r h) (
      let m₁ =
        set_condition (client.now s) m condition_progressing condition_true reason_progressing
          (executing client bodies m.status.phase) in
      let (x, e, m₂, s') = execute_phase client phase m₁ s in
      after_execution-IsFree m.status.phase x e m₂ s' (execute_phase-IsFree client phase m₁ s h))

  sync_phase-IsFree :
      (found : Option (Phase S)) (m : Migration) (s : S)
      → m.spec.state ≡ MigrationState.running
      → IsFree m
      → IsFree (sync_phase client bodies found m s).1
  unfolding sync_phase
  sync_phase-IsFree none m s r h = h
  sync_phase-IsFree (some phase) m s r h = try_phase-IsFree phase m s r h

  sync_running-IsFree :
      (m : Migration) (s : S)
      → m.spec.state ≡ MigrationState.running
      → IsFree m
      → IsFree (sync_running client bodies m s).1
  unfolding sync_running set_condition
  sync_running-IsFree m s r h = elim (Bool-cases (m.status.phase == completed)) [
    | inl c ↦ rw c h
    | inr c ↦ rw c (sync_phase-IsFree (get_phase_implementation bodies m.status.phase) m s r h)
  ]

  sync_state-IsFree :
      (state : MigrationState) (m : Migration) (s : S)
      → state ≡ MigrationState.running
      → m.spec.state ≡ MigrationState.running
      → IsFree m
      → IsFree (sync_state client bodies state m s).1
  unfolding sync_state
  sync_state-IsFree MigrationState.running m s e r h = sync_running-IsFree m s r h
  sync_state-IsFree _ m s e r h = cc

  initialize_status-IsFree :
      (now : Time) (m : Migration) → IsFree m → IsFree (initialize_status now m)
  unfolding initialize_status
  initialize_status-IsFree now m h = elim (Bool-cases (m.status.phase == no_phase)) [
    | inl n ↦ rw n h
    | inr n ↦ rw n h
  ]

  -- If the migration is running, in manual mode or not, and no phase state asks for a missing
  -- approval, then the gate lets every phase through, and the reconciliation leaves no phase state
  -- that asks for a missing approval.
  pub sync_migration-IsFree :
      (m : Migration) (s : S) (p : MigrationPhase)
      → m.spec.state ≡ MigrationState.running
      → IsFree m
      → (should_execute_phase m p ≡ true) × IsFree (sync_migration client bodies m s).1
  unfolding sync_migration
  sync_migration-IsFree m s p r h = (should_execute-free m p r h, free)
    where
      m₀ : Migration
      m₀ = initialize_status (client.now s) m

      spec₀ : m₀.spec.state ≡ MigrationState.running
      spec₀ = unfold initialize_status in ground arith

      free : IsFree (sync_migration client bodies m s).1
      free =
          sync_state-IsFree m.spec.state m₀ s r spec₀ (initialize_status-IsFree (client.now s) m h)

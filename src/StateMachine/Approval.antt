-- ===== src/StateMachine/Approval.antt =====
-- The approval gate: `ShouldExecutePhase`, `MarkPhaseForApproval`, `ApprovePhase`.
use openshift_vsphere_migrat.Base.{
  ◌≡◌, ◌≢◌, Bool, true, false, Option, none, some, Message, ◌==◌, ◌&&◌, arith, ◌⊎◌, beq_refl,
}
use openshift_vsphere_migrat.Api.{
  MigrationPhase, phase_eq, MigrationState, ApprovalMode, PhaseState, Migration,
}
use openshift_vsphere_migrat.StateMachine.{
  should_execute_phase, mark_phase_for_approval, approve_phase,
}

-- In manual mode a phase that has been marked is held back, and is let through by its approval,
-- which the state machine then reports without an error.
pub approve-mark :
    (m : Migration) (phase : MigrationPhase) (message : Message)
    → m.spec.state ≡ MigrationState.running
    → m.spec.approval_mode ≡ ApprovalMode.manual
    → let marked = mark_phase_for_approval m phase message in
      let (approved, e) = approve_phase marked phase in
      (should_execute_phase marked phase ≡ false)
      × (e ≡ none)
      × (should_execute_phase approved phase ≡ true)
unfolding should_execute_phase mark_phase_for_approval approve_phase
approve-mark m phase message r a = ground (arith, beq_refl phase)

-- The phase state is one of the phase, and asks for an approval.
abbrev pub asks_for : MigrationPhase → Option PhaseState → Bool
asks_for phase none = false
asks_for phase (some state) = state.name == phase && state.requires_approval

-- An approval that is refused changes nothing, and it is refused exactly when no phase state of
-- that phase asks for an approval.
pub approve_phase_refusal :
    (m : Migration) (phase : MigrationPhase)
    → (asks_for phase m.status.current_phase_state ≡ true) × ((approve_phase m phase).1 ≡ none)
      ⊎ (asks_for phase m.status.current_phase_state ≡ false)
        × ((approve_phase m phase).1 ≢ none)
        × ((approve_phase m phase).0 ≡ m)
unfolding approve_phase
approve_phase_refusal m phase = ground arith

-- ===== src/Reconciler/Run.antt =====
-- A run of reconciliations in which every phase succeeds.
use openshift_vsphere_migrat.Base.{
  ℕ, zero, suc, ◌≡◌, refl, true, false, [], ◌∷◌, ◌++◌, Option, none, some, GoError, ok, ◌==◌, All,
  arith, ◌≢◌,
}
use openshift_vsphere_migrat.Api.{
  MigrationPhase, completed, phase_eq, MigrationState, PhaseStatus, is_status_running,
  PhaseHistoryEntry, Migration, condition_progressing, condition_true, reason_progressing,
}
use openshift_vsphere_migrat.Conditions.{set_condition}
use openshift_vsphere_migrat.Kube.{Client}
use openshift_vsphere_migrat.Executor.{PhaseResult, Phase, execute_phase}
use openshift_vsphere_migrat.Reconciler.Phases.{PhaseBodies, get_phase_implementation}
use openshift_vsphere_migrat.Executor.Frame.{
  SameProgress, SameProgress-trans, execute_phase-SameProgress,
}
use openshift_vsphere_migrat.Executor.Success.{Succeeds, execute_phase-completed}
use openshift_vsphere_migrat.StateMachine.{next_of, should_execute_phase}
use openshift_vsphere_migrat.StateMachine.History.{IsClosed, completion_entry}
use openshift_vsphere_migrat.Reconciler.Outcomes.{complete_phase_lem}
use openshift_vsphere_migrat.Reconciler.{
  after_execution, executing, try_phase, sync_phase, sync_running, sync_state, sync_migration,
}

module _ {S : Type 0} (client : Client S) (bodies : PhaseBodies S) where
  -- `n` reconciliations, each of the object that the one before left.
  unfoldable pub sync_many : ℕ → Migration → S → Migration × S
  sync_many zero m s = (m, s)
  sync_many (suc n) m s = let (e, m', s') = sync_migration client bodies m s in sync_many n m' s'

  after_execution-completed :
      (r : PhaseResult) (e : Option GoError) (m m₂ : Migration) (s : S) (q : MigrationPhase)
      → SameProgress m₂ m
      → All IsClosed m.status.phase_history
      → next_of m.status.phase ≡ ok q
      → r.status ≡ PhaseStatus.completed
      → e ≡ none
      → let m' = (after_execution client bodies m.status.phase (r, e, m₂, s)).1 in
        (m'.status.phase ≡ q)
        × (m'.status.phase_history
            ≡ m.status.phase_history ++ completion_entry (client.now s) m.status.phase r ∷ [])
        × (m'.spec ≡ m.spec)
  unfolding after_execution
  after_execution-completed r (some e) m m₂ s q same closed next c h = cc
  after_execution-completed r none m m₂ s q same closed next c h =
      rw (not_running r.status c) (complete_phase_lem (client.now s) r m m₂ s q same closed next)
    where
      not_running : (t : PhaseStatus) → t ≡ PhaseStatus.completed → is_status_running t ≡ false
      not_running t h = ground arith

  -- The phase `p` was completed, and `q` is the current one.
  pub record Moved (m m' : Migration) (p q : MigrationPhase) : Type 0 where
    pub phase : m'.status.phase ≡ q
    pub spec : m'.spec ≡ m.spec
    pub entry : PhaseHistoryEntry
    pub entry_phase : entry.phase ≡ p
    pub entry_status : entry.status ≡ PhaseStatus.completed
    pub entry_closed : IsClosed entry
    pub history : m'.status.phase_history ≡ m.status.phase_history ++ entry ∷ []

  try_phase-Moved :
      (phase : Phase S) (m : Migration) (s : S) (q : MigrationPhase)
      → should_execute_phase m m.status.phase ≡ true
      → Succeeds phase
      → All IsClosed m.status.phase_history
      → next_of m.status.phase ≡ ok q
      → Moved m (try_phase client bodies phase m s).1 m.status.phase q
  unfolding try_phase set_condition
  try_phase-Moved phase m s q x h closed next = rw x (record {
    phase = done.0;
    spec = done.2;
    entry = completion_entry (client.now s') m.status.phase r;
    entry_phase = refl;
    entry_status = (execute_phase-completed client phase m₁ s h).0;
    entry_closed = λ e. cc;
    history = done.1;
  })
    where
      m₁ : Migration
      m₁ =
          set_condition (client.now s) m condition_progressing condition_true reason_progressing
            (executing client bodies m.status.phase)

      r : PhaseResult
      r = (execute_phase client phase m₁ s).0

      m₂ : Migration
      m₂ = (execute_phase client phase m₁ s).2

      s' : S
      s' = (execute_phase client phase m₁ s).3

      done :
          let m' =
            (after_execution client bodies m.status.phase (execute_phase client phase m₁ s)).1 in
          (m'.status.phase ≡ q)
          × (m'.status.phase_history
              ≡ m.status.phase_history ++ completion_entry (client.now s') m.status.phase r ∷ [])
          × (m'.spec ≡ m.spec)
      done =
          after_execution-completed r (execute_phase client phase m₁ s).1 m m₂ s' q
            (SameProgress-trans (execute_phase-SameProgress client phase m₁ s)
              (record { spec = refl; phase = refl; phase_history = refl }))
            closed next (execute_phase-completed client phase m₁ s h).0
            (execute_phase-completed client phase m₁ s h).1

  pub sync_state-Moved :
      (state : MigrationState) (phase : Phase S) (m : Migration) (s : S) (q : MigrationPhase)
      → state ≡ MigrationState.running
      → should_execute_phase m m.status.phase ≡ true
      → get_phase_implementation bodies m.status.phase ≡ some phase
      → m.status.phase ≢ completed
      → Succeeds phase
      → All IsClosed m.status.phase_history
      → next_of m.status.phase ≡ ok q
      → Moved m (sync_state client bodies state m s).1 m.status.phase q
  unfolding sync_state
  sync_state-Moved MigrationState.running phase m s q e x i n h closed next =
      rw (not-completed, sync_running)
        (rw (i, sync_phase) (try_phase-Moved phase m s q x h closed next))
    where
      not-completed : (m.status.phase == completed) ≡ false
      not-completed = ground (arith, phase_eq.beq_iff m.status.phase completed)
  sync_state-Moved _ phase m s q e x i n h closed next = cc

-- ===== src/Reconciler/Outcomes.antt =====
-- The steps that one reconciliation can take, and those that end the execution of a phase.
use openshift_vsphere_migrat.Base.{
  ◌≡◌, refl, ◌≢◌, ◌∙◌, sym, ap, Bool, true, false, [], ◌∷◌, ◌++◌, some, GoError, ok, if◌then◌else◌,
  ◌==◌, Bool-cases, inl, inr, All,
}
use openshift_vsphere_migrat.Api.{
  Time, MigrationPhase, completed, failed, rollback_completed, phase_beq, phase_eq, MigrationState,
  PhaseStatus, is_status_running, Migration, no_phase, preflight, backup, disable_cvo,
  update_secrets, create_tags, create_folder, delete_cpms, update_infrastructure, update_config,
  restart_pods, monitor_health, create_workers, recreate_cpms, scale_old_machines, cleanup, verify,
}
use openshift_vsphere_migrat.Conditions.{set_condition}
use openshift_vsphere_migrat.Kube.{Client}
use openshift_vsphere_migrat.Executor.{PhaseResult, Phase}
use openshift_vsphere_migrat.Executor.Frame.{SameProgress}
use openshift_vsphere_migrat.StateMachine.{get_next_phase, next_of, record_phase_completion}
use openshift_vsphere_migrat.StateMachine.History.{
  IsClosed, completion_entry, record_phase_completion_lem,
}
use openshift_vsphere_migrat.StateMachine.Rollback.{initiate_rollback_lem}
use openshift_vsphere_migrat.Reconciler.Phases.{
  PhaseBodies, get_phase_implementation, get_all_phases,
}
use openshift_vsphere_migrat.Reconciler.{
  advance_to, complete_phase, roll_back_on_failure, fail_phase,
}

-- From a migration to the one that a reconciliation leaves.
pub data Step (m m' : Migration) : Type 0 where
  -- Nothing was completed.
  stay :
      m'.status.phase ≡ m.status.phase
      → m'.status.phase_history ≡ m.status.phase_history
      → Step m m'
  -- The phase ended without an error, and the next one in the order is the current one.
  advance :
      (now : Time) (result : PhaseResult)
      → is_status_running result.status ≡ false
      → next_of m.status.phase ≡ ok m'.status.phase
      → m'.status.phase_history
        ≡ m.status.phase_history ++ completion_entry now m.status.phase result ∷ []
      → Step m m'
  -- The phase ended with an error, and there is no automatic rollback.
  fail :
      (now : Time) (result : PhaseResult)
      → result.status ≡ PhaseStatus.failed
      → m.spec.rollback_on_failure ≡ false
      → m'.status.phase ≡ failed
      → m'.status.phase_history
        ≡ m.status.phase_history ++ completion_entry now m.status.phase result ∷ []
      → Step m m'
  -- The phase ended with an error, and the migration was rolled back.
  fail_back :
      (now : Time) (result : PhaseResult)
      → result.status ≡ PhaseStatus.failed
      → m.spec.rollback_on_failure ≡ true
      → m'.status.phase ≡ rollback_completed
      → m'.status.phase_history
        ≡ m.status.phase_history ++ completion_entry now m.status.phase result ∷ []
      → Step m m'
  -- The user asked for a rollback.
  roll_back :
      m.spec.state ≡ MigrationState.rollback
      → m'.status.phase ≡ rollback_completed
      → m'.status.phase_history ≡ m.status.phase_history
      → Step m m'

advance_to-phase :
    {S : Type 0} (now : Time) (next : MigrationPhase) (m : Migration) (s : S)
    → ((advance_to now (ok next) m s).1.status.phase ≡ next)
      × ((advance_to now (ok next) m s).1.status.phase_history ≡ m.status.phase_history)
      × ((advance_to now (ok next) m s).1.spec ≡ m.spec)
unfolding advance_to set_condition
advance_to-phase now next m s = elim (Bool-cases (next == completed)) [
  | inl c ↦ rw c (sym ((phase_eq.beq_iff next completed).0 c), refl, refl)
  | inr c ↦ rw c (refl, refl, refl)
]

-- The object behind a completed phase.
pub complete_phase_lem :
    {S : Type 0} (now : Time) (result : PhaseResult) (m m₂ : Migration) (s : S) (q : MigrationPhase)
    → SameProgress m₂ m
    → All IsClosed m.status.phase_history
    → next_of m.status.phase ≡ ok q
    → let m' = (complete_phase now m.status.phase result m₂ s).1 in
      (m'.status.phase ≡ q)
      × (m'.status.phase_history
          ≡ m.status.phase_history ++ completion_entry now m.status.phase result ∷ [])
      × (m'.spec ≡ m.spec)
unfolding complete_phase
complete_phase_lem now result m m₂ s q same closed next =
    rw next₃ (moved.0, moved.1 ∙ history, moved.2 ∙ spec₃)
  where
    m₃ : Migration
    m₃ = record_phase_completion now m₂ m.status.phase result

    history :
        m₃.status.phase_history
        ≡ m.status.phase_history ++ completion_entry now m.status.phase result ∷ []
    history =
        (record_phase_completion_lem now m₂ m.status.phase result (rw same.phase_history closed)).0
        ∙ ap (λ h. h ++ completion_entry now m.status.phase result ∷ []) same.phase_history

    spec₃ : m₃.spec ≡ m.spec
    spec₃ = unfold record_phase_completion in same.spec

    next₃ : get_next_phase m₃ ≡ ok q
    next₃ = unfold get_next_phase record_phase_completion in ap next_of same.phase ∙ next

    moved :
        ((advance_to now (ok q) m₃ s).1.status.phase ≡ q)
        × ((advance_to now (ok q) m₃ s).1.status.phase_history ≡ m₃.status.phase_history)
        × ((advance_to now (ok q) m₃ s).1.spec ≡ m₃.spec)
    moved = advance_to-phase now q m₃ s

pub complete_phase-Step :
    {S : Type 0} (now : Time) (result : PhaseResult) (m m₂ : Migration) (s : S) (q : MigrationPhase)
    → SameProgress m₂ m
    → All IsClosed m.status.phase_history
    → is_status_running result.status ≡ false
    → next_of m.status.phase ≡ ok q
    → Step m (complete_phase now m.status.phase result m₂ s).1
complete_phase-Step now result m m₂ s q same closed r next =
    let done = complete_phase_lem now result m m₂ s q same closed next in
    advance now result r (next ∙ ap ok (sym done.0)) done.1

-- Every phase that has an implementation has a next phase, its implementation bears its name, and
-- it is not the empty phase.
pub get_phase_implementation-next :
    {S : Type 0} (bodies : PhaseBodies S) (p : MigrationPhase) (phase : Phase S)
    → get_phase_implementation bodies p ≡ some phase
    → ((q : MigrationPhase) × (next_of p ≡ ok q)) × (phase.name ≡ p) × (p ≢ no_phase)
unfolding get_phase_implementation next_of phase_beq
get_phase_implementation-next bodies preflight phase h = ((_, refl), cc, λ e. cc)
get_phase_implementation-next bodies backup phase h = ((_, refl), cc, λ e. cc)
get_phase_implementation-next bodies disable_cvo phase h = ((_, refl), cc, λ e. cc)
get_phase_implementation-next bodies update_secrets phase h = ((_, refl), cc, λ e. cc)
get_phase_implementation-next bodies create_tags phase h = ((_, refl), cc, λ e. cc)
get_phase_implementation-next bodies create_folder phase h = ((_, refl), cc, λ e. cc)
get_phase_implementation-next bodies delete_cpms phase h = ((_, refl), cc, λ e. cc)
get_phase_implementation-next bodies update_infrastructure phase h = ((_, refl), cc, λ e. cc)
get_phase_implementation-next bodies update_config phase h = ((_, refl), cc, λ e. cc)
get_phase_implementation-next bodies restart_pods phase h = ((_, refl), cc, λ e. cc)
get_phase_implementation-next bodies monitor_health phase h = ((_, refl), cc, λ e. cc)
get_phase_implementation-next bodies create_workers phase h = ((_, refl), cc, λ e. cc)
get_phase_implementation-next bodies recreate_cpms phase h = ((_, refl), cc, λ e. cc)
get_phase_implementation-next bodies scale_old_machines phase h = ((_, refl), cc, λ e. cc)
get_phase_implementation-next bodies cleanup phase h = ((_, refl), cc, λ e. cc)
get_phase_implementation-next bodies verify phase h = ((_, refl), cc, λ e. cc)
get_phase_implementation-next bodies p phase h = cc

module _ {S : Type 0} (client : Client S) (bodies : PhaseBodies S) where
  roll_back_on_failure-phase :
      (b : Bool) (m : Migration) (s : S)
      → ((roll_back_on_failure client bodies b m s).0.status.phase
          ≡ (if b then rollback_completed else m.status.phase))
        × ((roll_back_on_failure client bodies b m s).0.status.phase_history
            ≡ m.status.phase_history)
  unfolding roll_back_on_failure
  roll_back_on_failure-phase true m s =
      let done = initiate_rollback_lem client (get_all_phases bodies) m s in
      (done.1, done.3.phase_history)
  roll_back_on_failure-phase false m s = (refl, refl)

  pub fail_phase-Step :
      (result : PhaseResult) (e : GoError) (m m₂ : Migration) (s : S)
      → SameProgress m₂ m
      → All IsClosed m.status.phase_history
      → result.status ≡ PhaseStatus.failed
      → Step m (fail_phase client bodies m.status.phase result e m₂ s).1
  unfolding fail_phase set_condition
  fail_phase-Step result e m m₂ s same closed r = go m.spec.rollback_on_failure refl
    where
      now : Time
      now = client.now s

      marked : Migration
      marked =
          let m₃ = record_phase_completion now m₂ m.status.phase result in
          record m₃ { status = record m₃.status { phase = failed } }

      history :
          marked.status.phase_history
          ≡ m.status.phase_history ++ completion_entry now m.status.phase result ∷ []
      history =
          (record_phase_completion_lem now m₂ m.status.phase result
            (rw same.phase_history closed)).0
          ∙ ap (λ h. h ++ completion_entry now m.status.phase result ∷ []) same.phase_history

      flag : m₂.spec.rollback_on_failure ≡ m.spec.rollback_on_failure
      flag = ap (λ x. x.rollback_on_failure) same.spec

      ending : Bool → MigrationPhase
      ending b = if b then rollback_completed else failed

      done :
          ((roll_back_on_failure client bodies m₂.spec.rollback_on_failure marked s).0.status.phase
            ≡ ending m₂.spec.rollback_on_failure)
          × ((roll_back_on_failure client bodies m₂.spec.rollback_on_failure marked
                s).0.status.phase_history
              ≡ marked.status.phase_history)
      done = roll_back_on_failure-phase m₂.spec.rollback_on_failure marked s

      go :
          (b : Bool)
          → m.spec.rollback_on_failure ≡ b
          → Step m (fail_phase client bodies m.status.phase result e m₂ s).1
      go true p = fail_back now result r p (done.0 ∙ ap ending (flag ∙ p)) (done.1 ∙ history)
      go false p = fail now result r p (done.0 ∙ ap ending (flag ∙ p)) (done.1 ∙ history)

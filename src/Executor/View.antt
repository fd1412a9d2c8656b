-- ===== src/Executor/View.antt =====
-- A view of the world that a phase does not change is not changed by its execution.
use openshift_vsphere_migrat.Base.{◌≡◌, refl, ◌∙◌, Option, none, some, GoError, Result, ok, err}
use openshift_vsphere_migrat.Api.{MigrationPhase, LogEntry, Artifacts, Migration}
use openshift_vsphere_migrat.Kube.{Client}
use openshift_vsphere_migrat.Executor.{
  PhaseResult, Phase, enter_phase, finish_phase, run_phase, execute_phase,
}

module _ {S V : Type 0} (view : S → V) where
  -- The phase's three methods leave the view alone.
  pub record KeepsView (phase : Phase S) : Type 0 where
    pub validate : (m : Migration) (s : S) → view (phase.validate m s).1 ≡ view s
    pub execute : (m : Migration) (s : S) → view (phase.execute m s).3 ≡ view s
    pub rollback : (m : Migration) (s : S) → view (phase.rollback m s).2 ≡ view s

  module _ (client : Client S) where
    finish_phase-view :
        (p : MigrationPhase) (start : LogEntry) (r : PhaseResult) (e : Option GoError)
        (a : Artifacts) (s : S) (m : Migration)
        → view (finish_phase client p start (r, e, a, s) m).3 ≡ view s
    unfolding finish_phase
    finish_phase-view p start r none a s m = refl
    finish_phase-view p start r (some e) a s m = refl

    run_phase-view :
        (phase : Phase S) (start : LogEntry) (v : Result (Unit {0})) (s : S) (m : Migration)
        → KeepsView phase
        → view (run_phase client phase start (v, s) m).3 ≡ view s
    unfolding run_phase
    run_phase-view phase start (err e) s m k = refl
    run_phase-view phase start (ok u) s m k =
        let (r, e, a, s') = phase.execute m s in
        finish_phase-view phase.name start r e a s' m ∙ k.execute m s

    pub execute_phase-view :
        (phase : Phase S) (m : Migration) (s : S)
        → KeepsView phase
        → view (execute_phase client phase m s).3 ≡ view s
    unfolding execute_phase
    execute_phase-view phase m s k =
        let m' = enter_phase phase.name m in
        let (v, s') = phase.validate m' s in run_phase-view phase _ v s' m' k ∙ k.validate m' s

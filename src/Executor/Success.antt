-- ===== src/Executor/Success.antt =====
-- The execution of a phase that succeeds.
use openshift_vsphere_migrat.Base.{◌≡◌, refl, ◌∙◌, Option, none, some, GoError, Result, ok, err}
use openshift_vsphere_migrat.Api.{MigrationPhase, PhaseStatus, LogEntry, Artifacts, Migration}
use openshift_vsphere_migrat.Kube.{Client}
use openshift_vsphere_migrat.Executor.{
  PhaseResult, Phase, enter_phase, finish_phase, run_phase, execute_phase,
}

-- A phase that validates, and whose execution completes without an error.
pub record Succeeds {S : Type 0} (phase : Phase S) : Type 0 where
  pub valid : (m : Migration) (s : S) → (phase.validate m s).0 ≡ ok tt
  pub status : (m : Migration) (s : S) → (phase.execute m s).0.status ≡ PhaseStatus.completed
  pub no_error : (m : Migration) (s : S) → (phase.execute m s).1 ≡ none

module _ {S : Type 0} (client : Client S) where
  finish_phase-completed :
      (p : MigrationPhase) (start : LogEntry) (r : PhaseResult) (e : Option GoError) (a : Artifacts)
      (s : S) (m : Migration)
      → e ≡ none
      → ((finish_phase client p start (r, e, a, s) m).0.status ≡ r.status)
        × ((finish_phase client p start (r, e, a, s) m).1 ≡ none)
  unfolding finish_phase
  finish_phase-completed p start r none a s m h = (refl, refl)
  finish_phase-completed p start r (some e) a s m h = cc

  run_phase-completed :
      (phase : Phase S) (start : LogEntry) (v : Result (Unit {0})) (s : S) (m : Migration)
      → Succeeds phase
      → v ≡ ok tt
      → ((run_phase client phase start (v, s) m).0.status ≡ PhaseStatus.completed)
        × ((run_phase client phase start (v, s) m).1 ≡ none)
  unfolding run_phase
  run_phase-completed phase start (err e) s m h v = cc
  run_phase-completed phase start (ok u) s m h v =
      let (r, e, a, s') = phase.execute m s in
      let done = finish_phase-completed phase.name start r e a s' m (h.no_error m s) in
      (done.0 ∙ h.status m s, done.1)

  pub execute_phase-completed :
      (phase : Phase S) (m : Migration) (s : S)
      → Succeeds phase
      → ((execute_phase client phase m s).0.status ≡ PhaseStatus.completed)
        × ((execute_phase client phase m s).1 ≡ none)
  unfolding execute_phase
  execute_phase-completed phase m s h =
      let m' = enter_phase phase.name m in
      let (v, s') = phase.validate m' s in run_phase-completed phase _ v s' m' h (h.valid m' s)

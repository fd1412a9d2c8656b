-- ===== src/Executor/Waiting.antt =====
-- An execution asks for no approval.
use openshift_vsphere_migrat.Base.{
  ◌≡◌, refl, false, Option, none, some, GoError, Result, ok, err, Bool-cases, inl, inr,
}
use openshift_vsphere_migrat.Api.{MigrationPhase, any_waiting, LogEntry, Artifacts, Migration}
use openshift_vsphere_migrat.Kube.{Client}
use openshift_vsphere_migrat.Executor.{
  PhaseResult, Phase, resumes, enter_phase, finish_phase, run_phase, execute_phase,
}

-- No phase state asks for an approval that is missing.
abbrev pub IsFree : Migration → Type 0
IsFree m = any_waiting m.status.current_phase_state ≡ false

enter_phase-IsFree : (p : MigrationPhase) (m : Migration) → IsFree m → IsFree (enter_phase p m)
unfolding enter_phase
enter_phase-IsFree p m h = elim (Bool-cases (resumes p m.status.current_phase_state)) [
  | inl r ↦ rw r h
  | inr r ↦ rw r refl
]

module _ {S : Type 0} (client : Client S) where
  finish_phase-IsFree :
      (p : MigrationPhase) (start : LogEntry) (r : PhaseResult) (e : Option GoError) (a : Artifacts)
      (s : S) (m : Migration)
      → IsFree m
      → IsFree (finish_phase client p start (r, e, a, s) m).2
  unfolding finish_phase
  finish_phase-IsFree p start r none a s m h = h
  finish_phase-IsFree p start r (some e) a s m h = h

  run_phase-IsFree :
      (phase : Phase S) (start : LogEntry) (v : Result (Unit {0})) (s : S) (m : Migration)
      → IsFree m
      → IsFree (run_phase client phase start (v, s) m).2
  unfolding run_phase
  run_phase-IsFree phase start (err e) s m h = h
  run_phase-IsFree phase start (ok u) s m h =
      let (r, e, a, s') = phase.execute m s in finish_phase-IsFree phase.name start r e a s' m h

  pub execute_phase-IsFree :
      (phase : Phase S) (m : Migration) (s : S)
      → IsFree m
      → IsFree (execute_phase client phase m s).2
  unfolding execute_phase
  execute_phase-IsFree phase m s h =
      let m' = enter_phase phase.name m in
      let (v, s') = phase.validate m' s in
      run_phase-IsFree phase _ v s' m' (enter_phase-IsFree phase.name m h)

-- ===== src/Executor/Frame.antt =====
-- What `ExecutePhase` leaves alone, and what its result says.
use openshift_vsphere_migrat.Base.{
  ◌≡◌, refl, ◌≢◌, ◌∙◌, Option, none, some, GoError, Result, ok, err, Bool-cases, inl, inr,
}
use openshift_vsphere_migrat.Api.{
  MigrationPhase, PhaseStatus, LogEntry, Migration, Artifacts, with_artifacts,
}
use openshift_vsphere_migrat.Kube.{Client}
use openshift_vsphere_migrat.Executor.{
  PhaseResult, Phase, resumes, enter_phase, failure_result, finish_phase, run_phase, execute_phase,
}

-- All that an execution may not write.
pub record SameProgress (a b : Migration) : Type 0 where
  pub spec : a.spec ≡ b.spec
  pub phase : a.status.phase ≡ b.status.phase
  pub phase_history : a.status.phase_history ≡ b.status.phase_history

pub SameProgress-refl : (a : Migration) → SameProgress a a
SameProgress-refl a = record { spec = refl; phase = refl; phase_history = refl }

SameProgress-artifacts : (m : Migration) (a : Artifacts) → SameProgress (with_artifacts m a) m
SameProgress-artifacts m a = record { spec = refl; phase = refl; phase_history = refl }

pub SameProgress-trans :
    {a b c : Migration} → SameProgress a b → SameProgress b c → SameProgress a c
SameProgress-trans p q = record {
  spec = p.spec ∙ q.spec;
  phase = p.phase ∙ q.phase;
  phase_history = p.phase_history ∙ q.phase_history;
}

enter_phase-SameProgress :
    (phase : MigrationPhase) (m : Migration) → SameProgress (enter_phase phase m) m
unfolding enter_phase
enter_phase-SameProgress phase m = elim (Bool-cases (resumes phase m.status.current_phase_state)) [
  | inl r ↦ rw r (SameProgress-refl m)
  | inr r ↦ rw r (record { spec = refl; phase = refl; phase_history = refl })
]

module _ {S : Type 0} (client : Client S) where
  finish_phase-SameProgress :
      (phase : MigrationPhase) (start : LogEntry) (r : PhaseResult) (e : Option GoError)
      (a : Artifacts) (s : S) (m : Migration)
      → SameProgress (finish_phase client phase start (r, e, a, s) m).2 m
  unfolding finish_phase
  finish_phase-SameProgress phase start r none a s m = SameProgress-artifacts m a
  finish_phase-SameProgress phase start r (some e) a s m = SameProgress-artifacts m a

  run_phase-SameProgress :
      (phase : Phase S) (start : LogEntry) (v : Result (Unit {0})) (s : S) (m : Migration)
      → SameProgress (run_phase client phase start (v, s) m).2 m
  unfolding run_phase
  run_phase-SameProgress phase start (err e) s m = SameProgress-refl m
  run_phase-SameProgress phase start (ok u) s m =
      let (r, e, a, s') = phase.execute m s in finish_phase-SameProgress phase.name start r e a s' m

  pub execute_phase-SameProgress :
      (phase : Phase S) (m : Migration) (s : S) → SameProgress (execute_phase client phase m s).2 m
  unfolding execute_phase
  execute_phase-SameProgress phase m s =
      let m' = enter_phase phase.name m in
      let (v, s') = phase.validate m' s in
      SameProgress-trans (run_phase-SameProgress phase _ v s' m')
        (enter_phase-SameProgress phase.name m)

  finish_phase-failed :
      (phase : MigrationPhase) (start : LogEntry) (r : PhaseResult) (e : Option GoError)
      (a : Artifacts) (s : S) (m : Migration)
      → (finish_phase client phase start (r, e, a, s) m).1 ≢ none
      → (finish_phase client phase start (r, e, a, s) m).0.status ≡ PhaseStatus.failed
  unfolding finish_phase failure_result
  finish_phase-failed phase start r none a s m h = absurd (h refl)
  finish_phase-failed phase start r (some e) a s m h = refl

  run_phase-failed :
      (phase : Phase S) (start : LogEntry) (v : Result (Unit {0})) (s : S) (m : Migration)
      → (run_phase client phase start (v, s) m).1 ≢ none
      → (run_phase client phase start (v, s) m).0.status ≡ PhaseStatus.failed
  unfolding run_phase failure_result
  run_phase-failed phase start (err e) s m h = refl
  run_phase-failed phase start (ok u) s m h =
      let (r, e, a, s') = phase.execute m s in finish_phase-failed phase.name start r e a s' m h

  -- An execution that returns an error returns a failed result, whatever result the phase gave.
  pub execute_phase-failed :
      (phase : Phase S) (m : Migration) (s : S)
      → (execute_phase client phase m s).1 ≢ none
      → (execute_phase client phase m s).0.status ≡ PhaseStatus.failed
  unfolding execute_phase
  execute_phase-failed phase m s h =
      let m' = enter_phase phase.name m in
      let (v, s') = phase.validate m' s in run_phase-failed phase _ v s' m' h

-- ===== src/Phases/Failing.antt =====
-- When a phase returns a failed result beside an error: one rule for each way its code is built.
use openshift_vsphere_migrat.Base.{◌≡◌, refl, Option, none, some, GoError, Message, ok, err}
use openshift_vsphere_migrat.Base.Exec.{Exec}
use openshift_vsphere_migrat.Api.{Time, MigrationPhase, PhaseStatus, LogLevel, Migration, Artifacts}
use openshift_vsphere_migrat.Executor.{PhaseResult}
use openshift_vsphere_migrat.Phases.Flow.{
  PhaseEnd, Flow, next, done, Journal, Step, continue, end_of, log, call, fail, finish, run, ◌>>=◌,
}

abbrev pub Fails : {S A : Type 0} → Flow A × Journal × S → Type 0
Fails (next a, j, s) = ⊥
Fails (done (r, none), j, s) = ⊥
Fails (done (r, some e), j, s) = r.status ≡ PhaseStatus.failed

-- The step fails in this world, whatever has been logged.
pub record FailsAt {S A : Type 0} (m : Step S A) (s : S) : Type 0 where
  pub at : (j : Journal) → Fails (m j s)

-- A failed result beside an error, as the caller of the phase sees it.
abbrev pub Failed : {S : Type 0} → PhaseResult × Option GoError × Artifacts × S → Type 0
Failed (r, none, a, s) = ⊥
Failed (r, some e, a, s) = r.status ≡ PhaseStatus.failed

continue-Fails :
    {S A B : Type 0} (f : A → Step S B) (x : Flow A × Journal × S)
    → Fails x
    → Fails (continue x.0 f x.1 x.2)
continue-Fails f (next a, j, s) h = absurd h
continue-Fails f (done (r, none), j, s) h = absurd h
continue-Fails f (done (r, some e), j, s) h = h

ended-Failed :
    {S : Type 0} (x : Flow PhaseEnd × Journal × S)
    → Fails x
    → Failed ((end_of x.0).0, (end_of x.0).1, x.1.artifacts, x.2)
ended-Failed (next a, j, s) h = absurd h
ended-Failed (done (r, none), j, s) h = absurd h
ended-Failed (done (r, some e), j, s) h = h

module _ {S : Type 0} where
  pub FailsAt-bind :
      {A B : Type 0} (m : Step S A) (f : A → Step S B) (s : S) → FailsAt m s → FailsAt (m >>= f) s
  unfolding ◌>>=◌
  FailsAt-bind m f s h = record { at = λ j. continue-Fails f (m j s) (h.at j) }

  pub FailsAt-log :
      {B : Type 0} (now : S → Time) (p : MigrationPhase) (level : LogLevel) (text : Message)
      (f : Unit {0} → Step S B) (s : S)
      → FailsAt (f tt) s
      → FailsAt (log now p level text >>= f) s
  unfolding log ◌>>=◌
  FailsAt-log now p level text f s h = record { at = λ j. h.at _ }

  -- After a call that succeeds, the rest fails.
  pub FailsAt-call :
      {A B : Type 0} (m : Exec S A) (what : Message) (f : A → Step S B) (s : S) (a : A) (s' : S)
      → m s ≡ (ok a, s')
      → FailsAt (f a) s'
      → FailsAt (call m what >>= f) s
  unfolding call ◌>>=◌
  FailsAt-call m what f s a s' q h = record { at = λ j. rw q (h.at j) }

  -- The call itself fails.
  pub FailsAt-refused :
      {A B : Type 0} (m : Exec S A) (what : Message) (f : A → Step S B) (s : S) (e : GoError)
      (s' : S)
      → m s ≡ (err e, s')
      → FailsAt (call m what >>= f) s
  unfolding call fail finish ◌>>=◌
  FailsAt-refused m what f s e s' q = record { at = λ j. rw q refl }

  pub run-Failed :
      (m : Step S PhaseEnd) (migration : Migration) (s : S)
      → FailsAt m s
      → Failed (run m migration s)
  unfolding run
  run-Failed m migration s h = ended-Failed _ (h.at _)

-- ===== src/Phases/Writes.antt =====
-- What a phase leaves true of the part of the migration that it writes: one rule for each way its code
-- is built.
use openshift_vsphere_migrat.Base.{Option, GoError, Message, Result, ok, err}
use openshift_vsphere_migrat.Base.Exec.{Exec}
use openshift_vsphere_migrat.Base.Int32.{Int32}
use openshift_vsphere_migrat.Api.{
  Time, Duration, MigrationPhase, PhaseStatus, LogLevel, Migration, Artifacts, artifacts_of,
}
use openshift_vsphere_migrat.Phases.Flow.{
  PhaseEnd, Flow, next, done, Journal, Step, continue, log, call, checked, fail, finish, run, ◌>>=◌,
}

abbrev pub OfOk : {A : Type 0} → (A → Type 0) → Result A → Type 0
OfOk Q (ok a) = Q a
OfOk Q (err e) = Unit

module _ (P : Artifacts → Type 0) where
  -- The step leaves the predicate true, also where it ends the phase.
  pub record Preserves {S A : Type 0} (m : Step S A) : Type 0 where
    pub at : (j : Journal) (s : S) → P j.artifacts → P (m j s).1.artifacts

  module _ {S : Type 0} where
    continue-Preserves :
        {A B : Type 0} (f : A → Step S B) (x : Flow A × Journal × S)
        → ((a : A) → Preserves (f a))
        → P x.1.artifacts
        → P (continue x.0 f x.1 x.2).1.artifacts
    continue-Preserves f (next a, j, s) h p = (h a).at j s p
    continue-Preserves f (done e, j, s) h p = p

    pub Preserves-bind :
        {A B : Type 0} (m : Step S A) (f : A → Step S B)
        → Preserves m
        → ((a : A) → Preserves (f a))
        → Preserves (m >>= f)
    unfolding ◌>>=◌
    Preserves-bind m f h k = record { at = λ j s p. continue-Preserves f (m j s) k (h.at j s p) }

    pub Preserves-log :
        (now : S → Time) (phase : MigrationPhase) (level : LogLevel) (text : Message)
        → Preserves (log now phase level text)
    unfolding log
    Preserves-log now phase level text = record { at = λ j s p. p }

    pub Preserves-finish :
        {A : Type 0} (status : PhaseStatus) (message : Message) (progress : Int32)
        (requeue : Duration) (e : Option GoError)
        → Preserves {S = S} {A = A} (finish status message progress requeue e)
    unfolding finish
    Preserves-finish status message progress requeue e = record { at = λ j s p. p }

    -- After a call, the rest has to leave the predicate true where the call's result is as it ensures.
    pub Preserves-call :
        {A B : Type 0} (Q : A → Type 0) (m : Exec S A) (what : Message) (f : A → Step S B)
        → ((s : S) → OfOk Q (m s).0)
        → ((a : A) → Q a → Preserves (f a))
        → Preserves (call m what >>= f)
    unfolding call fail finish ◌>>=◌
    Preserves-call {A = A} {B = B} Q m what f h k = record {
      at = λ j s p. let (r, s') = m s in after r j s' (h s) p;
    }
      where
        bound : Result A → Journal → S → Flow B × Journal × S
        bound r j s = let (x, j', s') = checked what r j s in continue x f j' s'

        after :
            (r : Result A) (j : Journal) (s : S)
            → OfOk Q r
            → P j.artifacts
            → P (bound r j s).1.artifacts
        after (ok a) j s q p = (k a q).at j s p
        after (err e) j s q p = p

    pub run-Preserves :
        (m : Step S PhaseEnd) (migration : Migration) (s : S)
        → Preserves m
        → P (artifacts_of migration)
        → P (run m migration s).2
    unfolding run
    run-Preserves m migration s h p = h.at _ s p

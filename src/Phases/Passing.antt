-- ===== src/Phases/Passing.antt =====
-- How a phase ends in a given world: one rule for each way its code goes on or returns.
use openshift_vsphere_migrat.Base.{◌≡◌, refl, Option, GoError, Message, Result, ok}
use openshift_vsphere_migrat.Base.Exec.{Exec}
use openshift_vsphere_migrat.Base.Int32.{Int32}
use openshift_vsphere_migrat.Api.{Time, Duration, MigrationPhase, PhaseStatus, LogLevel, Migration}
use openshift_vsphere_migrat.Phases.Flow.{
  PhaseEnd, Flow, next, done, Journal, Step, pure, end_of, log, call, try, finish, run, ◌>>=◌,
}

-- In the world `s` the step goes on with the value `a` and leaves the world `s'`, whatever was logged.
pub record PassesAt {S A : Type 0} (m : Step S A) (s : S) (a : A) (s' : S) : Type 0 where
  pub at : (j : Journal) → (j' : Journal) × (m j s ≡ (next a, j', s'))

-- The status and the error with which a phase ends, and the world.
abbrev pub ending : {S : Type 0} → Flow PhaseEnd × Journal × S → PhaseStatus × Option GoError × S
ending (f, j, s) = ((end_of f).0.status, (end_of f).1, s)

pub record EndsAt {S : Type 0} (m : Step S PhaseEnd) (s : S)
    (end : PhaseStatus × Option GoError × S) : Type 0 where
  pub at : (j : Journal) → ending (m j s) ≡ end

module _ {S : Type 0} where
  pub PassesAt-pure : {A : Type 0} (a : A) (s : S) → PassesAt (pure a) s a s
  PassesAt-pure a s = record { at = λ j. (j, refl) }

  pub PassesAt-log :
      (now : S → Time) (phase : MigrationPhase) (level : LogLevel) (text : Message) (s : S)
      → PassesAt (log now phase level text) s tt s
  unfolding log
  PassesAt-log now phase level text s = record { at = λ j. (_, refl) }

  pub PassesAt-call :
      {A : Type 0} (m : Exec S A) (what : Message) (s : S) (a : A) (s' : S)
      → m s ≡ (ok a, s')
      → PassesAt (call m what) s a s'
  unfolding call
  PassesAt-call m what s a s' q = record { at = λ j. (j, rw q refl) }

  pub PassesAt-try :
      {A : Type 0} (m : Exec S A) (s : S) (r : Result A) (s' : S)
      → m s ≡ (r, s')
      → PassesAt (try m) s r s'
  unfolding try
  PassesAt-try m s r s' q = record { at = λ j. (j, rw q refl) }

  pub PassesAt-bind :
      {A B : Type 0} (m : Step S A) (f : A → Step S B) (s : S) (a : A) (s' : S) (b : B) (s'' : S)
      → PassesAt m s a s'
      → PassesAt (f a) s' b s''
      → PassesAt (m >>= f) s b s''
  unfolding ◌>>=◌
  PassesAt-bind m f s a s' b s'' h k = record {
    at = λ j. let (j', q) = h.at j in let (j'', q') = k.at j' in (j'', rw q q');
  }

  pub EndsAt-bind :
      {A : Type 0} (m : Step S A) (f : A → Step S PhaseEnd) (s : S) (a : A) (s' : S)
      (end : PhaseStatus × Option GoError × S)
      → PassesAt m s a s'
      → EndsAt (f a) s' end
      → EndsAt (m >>= f) s end
  unfolding ◌>>=◌
  EndsAt-bind m f s a s' end h k = record { at = λ j. let (j', q) = h.at j in rw q (k.at j') }

  pub EndsAt-finish :
      (status : PhaseStatus) (message : Message) (progress : Int32) (requeue : Duration)
      (e : Option GoError) (s : S)
      → EndsAt (finish status message progress requeue e) s (status, e, s)
  unfolding finish
  EndsAt-finish status message progress requeue e s = record { at = λ j. refl }

  -- The phase as its caller sees it.
  pub run-EndsAt :
      (m : Step S PhaseEnd) (migration : Migration) (s : S) (end : PhaseStatus × Option GoError × S)
      → EndsAt m s end
      → let (r, e, a, t) = run m migration s in (r.status, e, t) ≡ end
  unfolding run
  run-EndsAt m migration s end h = h.at _

-- The step returns early, with this ending.
pub record StopsAt {S A : Type 0} (m : Step S A) (s : S) (end : PhaseStatus × Option GoError × S)
    : Type 0 where
  pub at :
      (j : Journal)
      → (e : PhaseEnd) × (j' : Journal) × (s' : S) × (m j s ≡ (done e, j', s'))
        × ((e.0.status, e.1, s') ≡ end)

module _ {S A : Type 0} where
  pub StopsAt-finish :
      (status : PhaseStatus) (message : Message) (progress : Int32) (requeue : Duration)
      (e : Option GoError) (s : S)
      → StopsAt {A = A} (finish status message progress requeue e) s (status, e, s)
  unfolding finish
  StopsAt-finish status message progress requeue e s = record { at = λ j. (_, _, _, refl, refl) }

  pub StopsAt-bind :
      {B : Type 0} (m : Step S B) (f : B → Step S A) (s : S) (b : B) (s' : S)
      (end : PhaseStatus × Option GoError × S)
      → PassesAt m s b s'
      → StopsAt (f b) s' end
      → StopsAt (m >>= f) s end
  unfolding ◌>>=◌
  StopsAt-bind m f s b s' end h k = record {
    at = λ j.
        let (j', q) = h.at j in let (e, j'', s'', q', w) = k.at j' in (e, j'', s'', (rw q q'), w);
  }

  pub EndsAt-stop :
      (m : Step S A) (f : A → Step S PhaseEnd) (s : S) (end : PhaseStatus × Option GoError × S)
      → StopsAt m s end
      → EndsAt (m >>= f) s end
  unfolding ◌>>=◌
  EndsAt-stop m f s end h = record { at = λ j. let (e, j', s', q, w) = h.at j in rw q w }

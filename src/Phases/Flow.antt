-- ===== src/Phases/Flow.antt =====
-- How a phase's `Execute` is written: it appends to `logs`, calls the managers, and returns early with
-- a result and an error. What it writes of the migration is carried along.
use openshift_vsphere_migrat.Base.{
  List, [], Option, none, some, Message, GoError, error_text, ◌++◌, Result, ok, err,
}
use openshift_vsphere_migrat.Base.Exec.{Exec}
use openshift_vsphere_migrat.Base.Int32.{Int32}
use openshift_vsphere_migrat.Api.{
  Time, Duration, MigrationPhase, phase_string, PhaseStatus, LogLevel, LogEntry, Migration,
  Artifacts, artifacts_of,
}
use openshift_vsphere_migrat.Executor.{PhaseResult, add_log}

-- `(*PhaseResult, error)`
abbrev pub PhaseEnd : Type 0
PhaseEnd = PhaseResult × Option GoError

pub data Flow (A : Type 0) : Type 0 where
  next : A → Flow A
  done : PhaseEnd → Flow A

pub record Journal : Type 0 where
  pub logs : List LogEntry
  pub artifacts : Artifacts

abbrev pub Step : Type 0 → Type 0 → Type 0
Step S A = Journal → S → Flow A × Journal × S

module _ {S A : Type 0} where
  abbrev pub pure : A → Step S A
  pure a j s = (next a, j, s)

  -- An early `return`.
  unfoldable pub finish : PhaseStatus → Message → Int32 → Duration → Option GoError → Step S A
  finish status message progress requeue e j s = (
    done (
      record {
        status = status;
        message = message;
        progress = progress;
        logs = j.logs;
        requeue_after = requeue;
      },
      e,
    ),
    j,
    s,
  )

  -- The error goes into the message, and is returned beside the failed result.
  unfoldable pub fail : Message → GoError → Step S A
  unfolding finish
  fail what e = finish PhaseStatus.failed (what ++ error_text e) 0 0 (some e)

  abbrev pub checked : Message → Result A → Step S A
  checked what (ok a) = pure a
  checked what (err e) = fail what e

  -- A call whose error ends the phase.
  unfoldable pub call : Exec S A → Message → Step S A
  call m what j s = let (r, s') = m s in checked what r j s'

  -- A call whose error the phase looks at itself.
  unfoldable pub try : Exec S A → Step S (Result A)
  try m j s = let (r, s') = m s in (next r, j, s')

abbrev pub continue : {S A B : Type 0} → Flow A → (A → Step S B) → Step S B
continue (next a) f j s = f a j s
continue (done e) f j s = (done e, j, s)

module _ {S A B : Type 0} where
  infixl 10 ◌>>=◌ ◌>>◌
  unfoldable pub ◌>>=◌ : Step S A → (A → Step S B) → Step S B
  ◌>>=◌ m f j s = let (r, j', s') = m j s in continue r f j' s'

  abbrev pub ◌>>◌ : Step S A → Step S B → Step S B
  m >> n = m >>= λ _. n

abbrev pub end_of : Flow PhaseEnd → PhaseEnd
end_of (next e) = e
end_of (done e) = e

module _ {S : Type 0} where
  -- `logs = AddLog(logs, level, message, string(p.Name()))`
  unfoldable pub log : (S → Time) → MigrationPhase → LogLevel → Message → Step S (Unit {0})
  log now phase level message j s =
      (next tt, record j { logs = add_log (now s) j.logs level message (phase_string phase) }, s)

  -- The whole `Execute` on a migration.
  unfoldable pub run :
      Step S PhaseEnd → Migration → S → PhaseResult × Option GoError × Artifacts × S
  run step m s =
      let (f, j, s') = step (record { logs = []; artifacts = artifacts_of m }) s in
      let (r, e) = end_of f in (r, e, j.artifacts, s')

  -- A rollback that changes nothing of the migration.
  unfoldable pub roll_back : Exec S (Unit {0}) → Migration → S → Option GoError × Artifacts × S
  roll_back m migration s =
      let (r, s') = m s in (elim r [ ok u ↦ none | err e ↦ some e ], artifacts_of migration, s')

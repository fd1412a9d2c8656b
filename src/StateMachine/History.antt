-- ===== src/StateMachine/History.antt =====
-- What `RecordPhaseCompletion` does to the phase history.
use openshift_vsphere_migrat.Base.{
  ◌≡◌, refl, ◌≢◌, false, List, [], ◌∷◌, ◌++◌, Option, none, some, arith, All,
}
use openshift_vsphere_migrat.Api.{
  Time, MigrationPhase, phase_eq, PhaseState, PhaseHistoryEntry, Migration,
}
use openshift_vsphere_migrat.Executor.{PhaseResult}
use openshift_vsphere_migrat.StateMachine.{
  is_open, open_start, start_of, close_entry, record_phase_completion,
}

-- Every entry of the history has a completion time.
abbrev pub IsClosed : PhaseHistoryEntry → Type 0
IsClosed e = e.completion_time ≢ none

not-open : (phase : MigrationPhase) (e : PhaseHistoryEntry) → IsClosed e → is_open phase e ≡ false
not-open phase e h = ground arith

-- A history without open entries: the entry is added at its end.
close_entry-append :
    (entry : PhaseHistoryEntry) (es : List PhaseHistoryEntry)
    → All IsClosed es
    → close_entry entry es ≡ es ++ entry ∷ []
unfolding close_entry
close_entry-append entry [] h = refl
close_entry-append entry (e ∷ es) h =
    rw (not-open entry.phase e h.0) (ap_cons (close_entry-append entry es h.1))
  where
    ap_cons : {xs ys : List PhaseHistoryEntry} → xs ≡ ys → e ∷ xs ≡ e ∷ ys
    ap_cons p = cc

open_start-default :
    (phase : MigrationPhase) (t : Time) (es : List PhaseHistoryEntry)
    → All IsClosed es
    → open_start phase t es ≡ t
unfolding open_start
open_start-default phase t [] h = refl
open_start-default phase t (e ∷ es) h =
    rw (not-open phase e h.0) (open_start-default phase t es h.1)

start_of-default :
    (phase : MigrationPhase) (t : Time) (state : Option PhaseState) (es : List PhaseHistoryEntry)
    → All IsClosed es
    → start_of phase t state es ≡ t
start_of-default phase t none es h = refl
start_of-default phase t (some state) es h = open_start-default phase t es h

pub All-snoc :
    (es : List PhaseHistoryEntry) (e : PhaseHistoryEntry)
    → All IsClosed es
    → IsClosed e
    → All IsClosed (es ++ e ∷ [])
All-snoc [] e h c = (c, tt)
All-snoc (d ∷ es) e h c = (h.0, All-snoc es e h.1 c)

-- The entry that a completion adds.
abbrev pub completion_entry : Time → MigrationPhase → PhaseResult → PhaseHistoryEntry
completion_entry now phase result = record {
  phase = phase;
  status = result.status;
  start_time = now;
  completion_time = some now;
  message = result.message;
  logs = result.logs;
}

-- If the history has no open entry, then a completion adds one entry at its end, whose start time
-- is the time of completion, drops the phase state, and leaves no open entry.
pub record_phase_completion_lem :
    (now : Time) (m : Migration) (phase : MigrationPhase) (result : PhaseResult)
    → All IsClosed m.status.phase_history
    → let m' = record_phase_completion now m phase result in
      (m'.status.phase_history ≡ m.status.phase_history ++ completion_entry now phase result ∷ [])
      × (m'.status.current_phase_state ≡ none)
      × All IsClosed m'.status.phase_history
unfolding record_phase_completion
record_phase_completion_lem now m phase result h =
    rw (start_of-default phase now m.status.current_phase_state m.status.phase_history h) (
      rw (close_entry-append (completion_entry now phase result) m.status.phase_history h) (
        refl,
        refl,
        All-snoc m.status.phase_history (completion_entry now phase result) h (λ e. cc),
      ))

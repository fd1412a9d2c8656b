-- ===== src/StateMachine/Rollback.antt =====
-- `InitiateRollback`: which phases are rolled back, in which order, and what is left of the status.
use openshift_vsphere_migrat.Base.{
  ◌≡◌, refl, ap, ◌∙◌, Bool, true, false, List, [], ◌∷◌, ◌++◌, map, reverse, keep, Option, none,
  some, if◌then◌else◌, ◌==◌, ◌&&◌, arith, All, sym, keep-reverse, Bool-cases, Option-cases, inl,
  inr,
}
use mathlib.Core.List.{append_assoc, append-nil}
use openshift_vsphere_migrat.Api.{
  MigrationPhase, rolling_back, rollback_completed, phase_eq, is_completed, PhaseHistoryEntry,
  Migration,
}
use openshift_vsphere_migrat.Kube.{Client}
use openshift_vsphere_migrat.Executor.{Phase}
use openshift_vsphere_migrat.StateMachine.View.{IsQuiet, enable_cvo-view}
use openshift_vsphere_migrat.StateMachine.{
  find_phase, roll_back_phase, roll_back_entry, roll_back_entries, initiate_rollback,
}

abbrev pub is_some {ℓ} : {A : Type ℓ} → Option A → Bool
is_some none = false
is_some (some a) = true

-- An entry is rolled back if it was completed and its phase is in the list.
abbrev pub is_rolled_back : {S : Type 0} → List (Phase S) → PhaseHistoryEntry → Bool
is_rolled_back phases e = is_completed e.status && is_some (find_phase e.phase phases)

find_phase-name :
    {S : Type 0} (phase : MigrationPhase) (ps : List (Phase S)) (p : Phase S)
    → find_phase phase ps ≡ some p
    → p.name ≡ phase
unfolding find_phase
find_phase-name phase [] p h = cc
find_phase-name phase (q ∷ qs) p h =
    ground (arith, phase_eq.beq_iff q.name phase, find_phase-name phase qs p)

-- What a rollback leaves alone.
pub record SameRecord (a b : Migration) : Type 0 where
  pub spec : a.spec ≡ b.spec
  pub phase_history : a.status.phase_history ≡ b.status.phase_history
  pub conditions : a.status.conditions ≡ b.status.conditions
  pub current_phase_state : a.status.current_phase_state ≡ b.status.current_phase_state
  pub start_time : a.status.start_time ≡ b.status.start_time

SameRecord-refl : (a : Migration) → SameRecord a a
SameRecord-refl a = record {
  spec = refl;
  phase_history = refl;
  conditions = refl;
  current_phase_state = refl;
  start_time = refl;
}

roll_back_phase-SameRecord :
    {S : Type 0} (p : Option (Phase S)) (m : Migration) (s : S)
    → SameRecord (roll_back_phase p m s).0 m
unfolding roll_back_phase
roll_back_phase-SameRecord none m s = SameRecord-refl m
roll_back_phase-SameRecord (some p) m s = record {
  spec = refl;
  phase_history = refl;
  conditions = refl;
  current_phase_state = refl;
  start_time = refl;
}

roll_back_entry-SameRecord :
    {S : Type 0} (phases : List (Phase S)) (e : PhaseHistoryEntry) (m : Migration) (s : S)
    → SameRecord (roll_back_entry phases e m s).0 m
unfolding roll_back_entry
roll_back_entry-SameRecord phases e m s = elim (Bool-cases (is_completed e.status)) [
  | inl c ↦ rw c (roll_back_phase-SameRecord (find_phase e.phase phases) m s)
  | inr c ↦ rw c (SameRecord-refl m)
]

roll_back_entries-SameRecord :
    {S : Type 0} (phases : List (Phase S)) (es : List PhaseHistoryEntry) (m : Migration) (s : S)
    → SameRecord (roll_back_entries phases es m s).0 m
unfolding roll_back_entries
roll_back_entries-SameRecord phases [] m s = SameRecord-refl m
roll_back_entries-SameRecord phases (e ∷ es) m s =
    let (m', s') = roll_back_entry phases e m s in
    let later = roll_back_entries-SameRecord phases es m' s' in
    let first = roll_back_entry-SameRecord phases e m s in
    record {
      spec = later.spec ∙ first.spec;
      phase_history = later.phase_history ∙ first.phase_history;
      conditions = later.conditions ∙ first.conditions;
      current_phase_state = later.current_phase_state ∙ first.current_phase_state;
      start_time = later.start_time ∙ first.start_time;
    }

-- A rollback never reports an error, whatever its phases and calls did. It ends in the phase
-- RollbackCompleted with a completion time, and leaves the spec, the history, the conditions, the
-- phase state and the start time as they were.
pub initiate_rollback_lem :
    {S : Type 0} (client : Client S) (phases : List (Phase S)) (m : Migration) (s : S)
    → let (e, m', s') = initiate_rollback client phases m s in
      (e ≡ none)
      × (m'.status.phase ≡ rollback_completed)
      × (m'.status.completion_time ≡ some (client.now s'))
      × SameRecord m' m
unfolding initiate_rollback
initiate_rollback_lem client phases m s =
    let started = record m { status = record m.status { phase = rolling_back } } in
    let same = roll_back_entries-SameRecord phases (reverse m.status.phase_history) started s in
    (
      refl,
      refl,
      refl,
      record {
        spec = same.spec;
        phase_history = same.phase_history;
        conditions = same.conditions;
        current_phase_state = same.current_phase_state;
        start_time = same.start_time;
      },
    )

module _ {S : Type 0} (trace : S → List MigrationPhase) where
  -- The rollback of the phase leaves the phase's name in the trace, whether it fails or not.
  abbrev pub Traces : Phase S → Type 0
  Traces p = (m : Migration) (s : S) → trace (p.rollback m s).2 ≡ trace s ++ p.name ∷ []

  find_phase-Traces :
      (phase : MigrationPhase) (ps : List (Phase S)) (p : Phase S)
      → All Traces ps
      → find_phase phase ps ≡ some p
      → Traces p
  unfolding find_phase
  find_phase-Traces phase [] p t h = cc
  find_phase-Traces phase (q ∷ qs) p t h =
      found (q.name == phase) t.0 h (find_phase-Traces phase qs p t.1)
    where
      found :
          (b : Bool)
          → Traces q
          → (if b then some q else find_phase phase qs) ≡ some p
          → (find_phase phase qs ≡ some p → Traces p)
          → Traces p
      found true tq e ih = λ m s. cc (tq m s)
      found false tq e ih = ih e

  abbrev one_if : Bool → MigrationPhase → List MigrationPhase
  one_if true p = p ∷ []
  one_if false p = []

  roll_back_phase-trace :
      (phases : List (Phase S)) (phase : MigrationPhase) (m : Migration) (s : S)
      → All Traces phases
      → trace (roll_back_phase (find_phase phase phases) m s).1
        ≡ trace s ++ one_if (is_some (find_phase phase phases)) phase
  unfolding roll_back_phase
  roll_back_phase-trace phases phase m s t = elim (Option-cases (find_phase phase phases)) [
    | inl n ↦ rw n (sym (append-nil _))
    | inr (p, f) ↦
        rw f (rw (← find_phase-name phase phases p f) (find_phase-Traces phase phases p t f m s))
  ]

  roll_back_entry-trace :
      (phases : List (Phase S)) (e : PhaseHistoryEntry) (m : Migration) (s : S)
      → All Traces phases
      → trace (roll_back_entry phases e m s).1 ≡ trace s ++ one_if (is_rolled_back phases e) e.phase
  unfolding roll_back_entry
  roll_back_entry-trace phases e m s t = elim (Bool-cases (is_completed e.status)) [
    | inl c ↦ rw c (roll_back_phase-trace phases e.phase m s t)
    | inr c ↦ rw c (sym (append-nil _))
  ]

  abbrev names : List PhaseHistoryEntry → List MigrationPhase
  names = map (λ (e : PhaseHistoryEntry). e.phase)

  one_if-keep :
      (phases : List (Phase S)) (b : Bool) (e : PhaseHistoryEntry) (es : List PhaseHistoryEntry)
      → one_if b e.phase ++ names es ≡ names (if b then e ∷ es else es)
  one_if-keep phases true e es = refl
  one_if-keep phases false e es = refl

  roll_back_entries-trace :
      (phases : List (Phase S)) (es : List PhaseHistoryEntry) (m : Migration) (s : S)
      → All Traces phases
      → trace (roll_back_entries phases es m s).1
        ≡ trace s ++ names (keep (is_rolled_back phases) es)
  unfolding roll_back_entries
  roll_back_entries-trace phases [] m s t = sym (append-nil _)
  roll_back_entries-trace phases (e ∷ es) m s t =
      let (m', s') = roll_back_entry phases e m s in
      let keeps = keep (is_rolled_back phases) es in
      roll_back_entries-trace phases es m' s' t
      ∙ ap (λ l. l ++ names keeps) (roll_back_entry-trace phases e m s t)
      ∙ append_assoc (trace s) (one_if (is_rolled_back phases e) e.phase) (names keeps)
      ∙ ap (λ l. trace s ++ l) (one_if-keep phases (is_rolled_back phases e) e keeps)

  -- If the rollback of each listed phase appends the phase's name to a trace, whether it fails or
  -- not, and the calls that re-enable the version operator leave the trace alone, then a rollback
  -- appends exactly the names of the completed history entries whose phase is in the list, from
  -- the last in the history to the first.
  pub initiate_rollback-trace :
      (client : Client S) (phases : List (Phase S)) (m : Migration) (s : S)
      → IsQuiet trace client
      → All Traces phases
      → trace (initiate_rollback client phases m s).2
        ≡ trace s
          ++ map
              (λ (e : PhaseHistoryEntry). e.phase)
              (reverse (keep (is_rolled_back phases) m.status.phase_history))
  unfolding initiate_rollback
  initiate_rollback-trace client phases m s q t =
      let started = record m { status = record m.status { phase = rolling_back } } in
      let es = reverse m.status.phase_history in
      enable_cvo-view trace client (roll_back_entries phases es started s).1 q
      ∙ roll_back_entries-trace phases es started s t
      ∙ ap (λ l. trace s ++ names l) (keep-reverse (is_rolled_back phases) m.status.phase_history)

-- ===== src/StateMachine/Order.antt =====
-- `GetNextPhase` walks the phase order.
use openshift_vsphere_migrat.Base.{
  ℕ, suc, ◌+◌, ◌≤◌, ◌≡◌, refl, ◌≢◌, Bool, true, false, List, [], ◌∷◌, Option, none, some, errorf,
  lit, Result, ok, err, if◌then◌else◌, ◌==◌, arith, get_elem?,
}
use openshift_vsphere_migrat.Api.{
  MigrationPhase, no_phase, preflight, backup, disable_cvo, update_secrets, create_tags,
  create_folder, delete_cpms, update_infrastructure, update_config, restart_pods, monitor_health,
  create_workers, recreate_cpms, scale_old_machines, cleanup, verify, completed, phase_string,
  phase_beq, phase_eq, Migration,
}
use openshift_vsphere_migrat.StateMachine.{phase_order, phase_after, next_of, get_next_phase}

-- Where a phase stands in a list.
abbrev pub index_of : MigrationPhase → List MigrationPhase → Option ℕ
index_of p [] = none
index_of p (q ∷ qs) =
    if q == p then some 0 else elim (index_of p qs) [ none ↦ none | some i ↦ some (suc i) ]

-- The phase behind a position, or completion behind the last.
abbrev pub behind : List MigrationPhase → Option ℕ → MigrationPhase → Result MigrationPhase
behind order none p = err (errorf (lit "unknown current phase: " ∷ lit (phase_string p) ∷ []))
behind order (some i) p = elim (get_elem? order (suc i)) [ none ↦ ok completed | some q ↦ ok q ]

behind_step :
    (b : Bool) (i : Option ℕ) (p q r : MigrationPhase) (rest : List MigrationPhase)
    → (if b then ok r else behind (r ∷ rest) i p)
      ≡ behind
          (q ∷ r ∷ rest)
          (if b then some 0 else elim i [ none ↦ none | some j ↦ some (suc j) ])
          p
behind_step true i p q r rest = refl
behind_step false none p q r rest = refl
behind_step false (some j) p q r rest = refl

behind_one :
    (b : Bool) (p q : MigrationPhase)
    → (if b then ok completed else behind [] none p)
      ≡ behind (q ∷ []) (if b then some 0 else none) p
behind_one true p q = refl
behind_one false p q = refl

phase_after-behind :
    (p : MigrationPhase) (order : List MigrationPhase)
    → phase_after p order ≡ behind order (index_of p order) p
unfolding phase_after
phase_after-behind p [] = refl
phase_after-behind p (q ∷ []) = behind_one (q == p) p q
phase_after-behind p (q ∷ r ∷ rest) =
    rw (phase_after-behind p (r ∷ rest)) (behind_step (q == p) (index_of p (r ∷ rest)) p q r rest)

-- `GetNextPhase` returns Preflight for no phase, no phase for completion, and otherwise the phase
-- behind the first position of the current one in the order, completion behind the last, and an
-- error for a phase that is not in the order.
pub get_next_phase_lem :
    (m : Migration)
    → get_next_phase m ≡ (
        if m.status.phase == no_phase
        then ok preflight
        else if m.status.phase == completed
        then ok no_phase
        else behind phase_order (index_of m.status.phase phase_order) m.status.phase)
unfolding get_next_phase
get_next_phase_lem m = rw (phase_after-behind m.status.phase phase_order)

-- How far a migration has come: 0 before the first phase, 17 when all phases are done.
abbrev pub rank : MigrationPhase → ℕ
rank no_phase = 0
rank preflight = 1
rank backup = 2
rank disable_cvo = 3
rank update_secrets = 4
rank create_tags = 5
rank create_folder = 6
rank delete_cpms = 7
rank update_infrastructure = 8
rank update_config = 9
rank restart_pods = 10
rank monitor_health = 11
rank create_workers = 12
rank recreate_cpms = 13
rank scale_old_machines = 14
rank cleanup = 15
rank verify = 16
rank completed = 17
rank p = 0

-- From any phase but completion, a next phase is exactly one further.
pub next_of-rank : (p q : MigrationPhase) → p ≢ completed → next_of p ≡ ok q → rank q ≡ rank p + 1
unfolding next_of phase_beq
next_of-rank completed q n h = absurd (n refl)
next_of-rank no_phase q n h = ground arith
next_of-rank _ q n h = ground arith

-- From any phase but completion, a next phase is exactly one further by rank, and no rank is above
-- 17, that of completion.
pub get_next_phase-rank :
    (m : Migration) (q : MigrationPhase)
    → m.status.phase ≢ completed
    → get_next_phase m ≡ ok q
    → (rank q ≡ rank m.status.phase + 1) × (rank q ≤ 17)
unfolding get_next_phase
get_next_phase-rank m q n h = (next_of-rank m.status.phase q n h, rank-le q)
  where
    rank-le : (p : MigrationPhase) → rank p ≤ 17
    rank-le no_phase = omega arith
    rank-le _ = omega arith

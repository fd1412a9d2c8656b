-- ===== src/Reconciler/Completion.antt =====
-- From a fresh object to completion, when every phase succeeds.
use openshift_vsphere_migrat.Base.{
  ℕ, suc, ◌≡◌, refl, ◌≢◌, ◌∙◌, sym, ap, true, false, List, [], ◌∷◌, ◌++◌, map, some, ok, ◌==◌,
  arith, All, length,
}
use mathlib.Core.List.{map-append, append_assoc, append-nil}
use openshift_vsphere_migrat.Api.{
  Time, MigrationPhase, no_phase, preflight, backup, disable_cvo, update_secrets, create_tags,
  create_folder, delete_cpms, update_infrastructure, update_config, restart_pods, monitor_health,
  create_workers, recreate_cpms, scale_old_machines, cleanup, verify, completed, phase_beq,
  phase_eq, MigrationState, PhaseStatus, PhaseHistoryEntry, Migration,
}
use openshift_vsphere_migrat.Kube.{Client}
use openshift_vsphere_migrat.Executor.{Phase}
use openshift_vsphere_migrat.Executor.Success.{Succeeds}
use openshift_vsphere_migrat.Executor.Waiting.{IsFree}
use openshift_vsphere_migrat.StateMachine.{next_of, phase_order}
use openshift_vsphere_migrat.StateMachine.History.{IsClosed, All-snoc}
use openshift_vsphere_migrat.Reconciler.Phases.{PhaseBodies, get_phase_implementation}
use openshift_vsphere_migrat.Reconciler.Approval.{sync_migration-IsFree}
use openshift_vsphere_migrat.Reconciler.Run.{sync_many, Moved, sync_state-Moved}
use openshift_vsphere_migrat.Reconciler.{initialize_status, sync_state, sync_migration}

abbrev names : List PhaseHistoryEntry → List MigrationPhase
names = map (λ (e : PhaseHistoryEntry). e.phase)

abbrev pub IsCompletedEntry : PhaseHistoryEntry → Type 0
IsCompletedEntry e = e.status ≡ PhaseStatus.completed

initialize_status-set :
    (now : Time) (m : Migration) → m.status.phase ≢ no_phase → initialize_status now m ≡ m
unfolding initialize_status
initialize_status-set now m h = rw (not-none)
  where
    not-none : (m.status.phase == no_phase) ≡ false
    not-none = ground (arith, phase_eq.beq_iff m.status.phase no_phase)

All-completed-snoc :
    (es : List PhaseHistoryEntry) (e : PhaseHistoryEntry)
    → All IsCompletedEntry es
    → IsCompletedEntry e
    → All IsCompletedEntry (es ++ e ∷ [])
All-completed-snoc [] e h c = (c, tt)
All-completed-snoc (d ∷ es) e h c = (h.0, All-completed-snoc es e h.1 c)

module _ {S : Type 0} (client : Client S) (bodies : PhaseBodies S) where
  -- The phases that the order and the implementations lead through, from one to completion.
  abbrev Chain : MigrationPhase → List MigrationPhase → Type 0
  Chain p [] = p ≡ completed
  Chain p (q ∷ qs) =
      (p ≡ q)
      × (p ≢ no_phase)
      × (p ≢ completed)
      × ((phase : Phase S) × (get_phase_implementation bodies p ≡ some phase))
      × ((r : MigrationPhase) × (next_of p ≡ ok r) × Chain r qs)

  record Ready (m : Migration) : Type 0 where
    running : m.spec.state ≡ MigrationState.running
    free : IsFree m
    closed : All IsClosed m.status.phase_history
    done : All IsCompletedEntry m.status.phase_history

  abbrev pub AllSucceed : Type 0
  AllSucceed =
      (p : MigrationPhase) (phase : Phase S)
      → get_phase_implementation bodies p ≡ some phase
      → Succeeds phase

  sync_migration-Moved :
      (m : Migration) (s : S) (phase : Phase S) (q : MigrationPhase)
      → AllSucceed
      → Ready m
      → m.status.phase ≢ no_phase
      → m.status.phase ≢ completed
      → get_phase_implementation bodies m.status.phase ≡ some phase
      → next_of m.status.phase ≡ ok q
      → Moved client bodies m (sync_migration client bodies m s).1 m.status.phase q
  unfolding sync_migration
  sync_migration-Moved m s phase q all ready n c i next =
      rw (initialize_status-set (client.now s) m n) (
        sync_state-Moved client bodies m.spec.state phase m s q ready.running
          (sync_migration-IsFree client bodies m s m.status.phase ready.running ready.free).0 i c
          (all m.status.phase phase i) ready.closed next)

  Moved-Ready :
      (m : Migration) (s : S) (p q : MigrationPhase)
      → Ready m
      → Moved client bodies m (sync_migration client bodies m s).1 p q
      → Ready (sync_migration client bodies m s).1
  Moved-Ready m s p q ready moved = record {
    running = ap (λ x. x.state) moved.spec ∙ ready.running;
    free = (sync_migration-IsFree client bodies m s p ready.running ready.free).1;
    closed =
        rw moved.history
          (All-snoc m.status.phase_history moved.entry ready.closed moved.entry_closed);
    done =
        rw moved.history
          (All-completed-snoc m.status.phase_history moved.entry ready.done moved.entry_status);
  }

  -- One reconciliation for each phase of the chain.
  sync_many-Chain :
      (ps : List MigrationPhase) (m : Migration) (s : S)
      → AllSucceed
      → Ready m
      → Chain m.status.phase ps
      → let m' = (sync_many client bodies (length ps) m s).0 in
        (m'.status.phase ≡ completed)
        × (names m'.status.phase_history ≡ names m.status.phase_history ++ ps)
        × All IsCompletedEntry m'.status.phase_history
  unfolding sync_many
  sync_many-Chain [] m s all ready chain = (chain, sym (append-nil _), ready.done)
  sync_many-Chain (p ∷ ps) m s all ready (e, n, c, (phase, i), (q, next, rest)) =
      let m' = (sync_migration client bodies m s).1 in
      let s' = (sync_migration client bodies m s).2 in
      let moved = sync_migration-Moved m s phase q all ready n c i next in
      let later =
        sync_many-Chain ps m' s' all (Moved-Ready m s m.status.phase q ready moved)
          (rw moved.phase rest) in
      (
        later.0,
        later.1
            ∙ ap (λ h. names h ++ ps) moved.history
            ∙ ap (λ l. l ++ ps) (map-append _ m.status.phase_history (moved.entry ∷ []))
            ∙ append_assoc (names m.status.phase_history) (moved.entry.phase ∷ []) ps
            ∙ ap (λ x. names m.status.phase_history ++ x ∷ ps) (moved.entry_phase ∙ e),
        later.2,
      )

  order-Chain : Chain preflight phase_order
  unfolding get_phase_implementation next_of phase_beq
  order-Chain = (
    refl,
    λ e. cc,
    λ e. cc,
    (_, refl),
    (
      backup,
      refl,
      (
        refl,
        λ e. cc,
        λ e. cc,
        (_, refl),
        (
          disable_cvo,
          refl,
          (
            refl,
            λ e. cc,
            λ e. cc,
            (_, refl),
            (
              update_secrets,
              refl,
              (
                refl,
                λ e. cc,
                λ e. cc,
                (_, refl),
                (
                  create_tags,
                  refl,
                  (
                    refl,
                    λ e. cc,
                    λ e. cc,
                    (_, refl),
                    (
                      create_folder,
                      refl,
                      (
                        refl,
                        λ e. cc,
                        λ e. cc,
                        (_, refl),
                        (
                          delete_cpms,
                          refl,
                          (
                            refl,
                            λ e. cc,
                            λ e. cc,
                            (_, refl),
                            (
                              update_infrastructure,
                              refl,
                              (
                                refl,
                                λ e. cc,
                                λ e. cc,
                                (_, refl),
                                (
                                  update_config,
                                  refl,
                                  (
                                    refl,
                                    λ e. cc,
                                    λ e. cc,
                                    (_, refl),
                                    (
                                      restart_pods,
                                      refl,
                                      (
                                        refl,
                                        λ e. cc,
                                        λ e. cc,
                                        (_, refl),
                                        (
                                          monitor_health,
                                          refl,
                                          (
                                            refl,
                                            λ e. cc,
                                            λ e. cc,
                                            (_, refl),
                                            (
                                              create_workers,
                                              refl,
                                              (
                                                refl,
                                                λ e. cc,
                                                λ e. cc,
                                                (_, refl),
                                                (
                                                  recreate_cpms,
                                                  refl,
                                                  (
                                                    refl,
                                                    λ e. cc,
                                                    λ e. cc,
                                                    (_, refl),
                                                    (
                                                      scale_old_machines,
                                                      refl,
                                                      (
                                                        refl,
                                                        λ e. cc,
                                                        λ e. cc,
                                                        (_, refl),
                                                        (
                                                          cleanup,
                                                          refl,
                                                          (
                                                            refl,
                                                            λ e. cc,
                                                            λ e. cc,
                                                            (_, refl),
                                                            (
                                                            verify,
                                                            refl,
                                                            (
                                                            refl,
                                                            λ e. cc,
                                                            λ e. cc,
                                                            (_, refl),
                                                            (completed, refl, refl),
                                                            ),
                                                            ),
                                                          ),
                                                        ),
                                                      ),
                                                    ),
                                                  ),
                                                ),
                                              ),
                                            ),
                                          ),
                                        ),
                                      ),
                                    ),
                                  ),
                                ),
                              ),
                            ),
                          ),
                        ),
                      ),
                    ),
                  ),
                ),
              ),
            ),
          ),
        ),
      ),
    ),
  )

  -- The first reconciliation initializes the status and goes on.
  initialize_status-twice :
      (now : Time) (m : Migration)
      → m.status.phase ≡ no_phase
      → let m₀ = initialize_status now m in
        (m₀.status.phase ≡ preflight)
        × (m₀.status.phase_history ≡ [])
        × (m₀.spec ≡ m.spec)
        × (m₀.status.current_phase_state ≡ m.status.current_phase_state)
  unfolding initialize_status phase_beq
  initialize_status-twice now m h = rw fresh (refl, refl, refl, refl)
    where
      fresh : (m.status.phase == no_phase) ≡ true
      fresh = (phase_eq.beq_iff m.status.phase no_phase).1 h

  sync_migration-initialized :
      (m : Migration) (s : S)
      → m.status.phase ≡ no_phase
      → sync_migration client bodies m s
        ≡ sync_migration client bodies (initialize_status (client.now s) m) s
  unfolding sync_migration
  sync_migration-initialized m s h =
      let m₀ = initialize_status (client.now s) m in
      let start = initialize_status-twice (client.now s) m h in
      let set : m₀.status.phase ≢ no_phase = λ e. cc (start.0, e) in
      rw (initialize_status-set (client.now s) m₀ set)
        (ap (λ x. sync_state client bodies x m₀ s) (sym (ap (λ x. x.state) start.2)))

  sync_many-initialized :
      (n : ℕ) (m : Migration) (s : S)
      → m.status.phase ≡ no_phase
      → sync_many client bodies (suc n) m s
        ≡ sync_many client bodies (suc n) (initialize_status (client.now s) m) s
  unfolding sync_many
  sync_many-initialized n m s h =
      ap (λ x. sync_many client bodies n x.1 x.2) (sync_migration-initialized m s h)

  -- If every phase that has an implementation validates and completes without an error, then a
  -- running migration that has no phase yet and no phase state that asks for a missing approval,
  -- in automatic or in manual mode, is completed by 16 reconciliations, and its history is the
  -- phase order, every entry of it completed.
  pub migration_completes :
      (m : Migration) (s : S)
      → AllSucceed
      → m.status.phase ≡ no_phase
      → m.spec.state ≡ MigrationState.running
      → IsFree m
      → let m' = (sync_many client bodies 16 m s).0 in
        (m'.status.phase ≡ completed)
        × (map (λ (e : PhaseHistoryEntry). e.phase) m'.status.phase_history ≡ phase_order)
        × All IsCompletedEntry m'.status.phase_history
  migration_completes m s all h r f =
      let m₀ = initialize_status (client.now s) m in
      let start = initialize_status-twice (client.now s) m h in
      let ready : Ready m₀ = record {
        running = ap (λ x. x.state) start.2 ∙ r;
        free = rw start.3 f;
        closed = rw start.1 tt;
        done = rw start.1 tt;
      } in
      let ran = sync_many-Chain phase_order m₀ s all ready (rw start.0 order-Chain) in
      rw (sync_many-initialized 15 m s h)
        (ran.0, ran.1 ∙ ap (λ l. names l ++ phase_order) start.1, ran.2)

-- ===== src/StateMachine/View.antt =====
-- A view of the world that no rollback changes is not changed by `InitiateRollback`.
use openshift_vsphere_migrat.Base.{
  ◌≡◌, refl, ◌∙◌, Bool, true, false, List, [], ◌∷◌, some, Result, ok, err, String, if◌then◌else◌,
  ◌==◌, Bool-cases, Option-cases, inl, inr, All, reverse,
}
use openshift_vsphere_migrat.Api.{
  MigrationPhase, rolling_back, phase_eq, is_completed, PhaseHistoryEntry, Migration,
}
use openshift_vsphere_migrat.Kube.{Client, Workload}
use openshift_vsphere_migrat.Executor.{Phase}
use openshift_vsphere_migrat.Executor.View.{KeepsView}
use openshift_vsphere_migrat.StateMachine.{
  find_phase, roll_back_phase, roll_back_entry, roll_back_entries, scaled_to_zero, enable_cvo_after,
  enable_cvo, initiate_rollback, cvo_namespace, cvo_name,
}

module _ {S V : Type 0} (view : S → V) where
  find_phase-KeepsView :
      (phase : MigrationPhase) (ps : List (Phase S)) (p : Phase S)
      → All (KeepsView view) ps
      → find_phase phase ps ≡ some p
      → KeepsView view p
  unfolding find_phase
  find_phase-KeepsView phase [] p t h = cc
  find_phase-KeepsView phase (q ∷ qs) p t h =
      found (q.name == phase) t.0 h (find_phase-KeepsView phase qs p t.1)
    where
      found :
          (b : Bool)
          → KeepsView view q
          → (if b then some q else find_phase phase qs) ≡ some p
          → (find_phase phase qs ≡ some p → KeepsView view p)
          → KeepsView view p
      found true k e ih = record {
        validate = λ m s. cc (k.validate m s);
        execute = λ m s. cc (k.execute m s);
        rollback = λ m s. cc (k.rollback m s);
      }
      found false k e ih = ih e

  roll_back_phase-view :
      (phases : List (Phase S)) (p : MigrationPhase) (m : Migration) (s : S)
      → All (KeepsView view) phases
      → view (roll_back_phase (find_phase p phases) m s).1 ≡ view s
  unfolding roll_back_phase
  roll_back_phase-view phases p m s k = elim (Option-cases (find_phase p phases)) [
    | inl n ↦ rw n
    | inr (q, f) ↦ rw f ((find_phase-KeepsView p phases q k f).rollback m s)
  ]

  roll_back_entry-view :
      (phases : List (Phase S)) (e : PhaseHistoryEntry) (m : Migration) (s : S)
      → All (KeepsView view) phases
      → view (roll_back_entry phases e m s).1 ≡ view s
  unfolding roll_back_entry
  roll_back_entry-view phases e m s k = elim (Bool-cases (is_completed e.status)) [
    | inl c ↦ rw c (roll_back_phase-view phases e.phase m s k)
    | inr c ↦ rw c
  ]

  roll_back_entries-view :
      (phases : List (Phase S)) (es : List PhaseHistoryEntry) (m : Migration) (s : S)
      → All (KeepsView view) phases
      → view (roll_back_entries phases es m s).1 ≡ view s
  unfolding roll_back_entries
  roll_back_entries-view phases [] m s k = refl
  roll_back_entries-view phases (e ∷ es) m s k =
      let (m', s') = roll_back_entry phases e m s in
      roll_back_entries-view phases es m' s' k ∙ roll_back_entry-view phases e m s k

  -- The calls that re-enable the version operator leave the view alone.
  pub record IsQuiet (client : Client S) : Type 0 where
    pub get :
        (namespace name : String) (s : S)
        → view (client.deployments.get namespace name s).1 ≡ view s
    pub update :
        (namespace : String) (d : Workload) (s : S)
        → view (client.deployments.update namespace d s).1 ≡ view s

  enable_cvo_after-view :
      (client : Client S) (r : Result Workload) (s : S)
      → IsQuiet client
      → view (enable_cvo_after client (r, s)) ≡ view s
  unfolding enable_cvo_after
  enable_cvo_after-view client (err e) s q = refl
  enable_cvo_after-view client (ok d) s q = elim (Bool-cases (scaled_to_zero d.replicas)) [
    | inl z ↦ rw z (q.update cvo_namespace (record d { replicas = some 1 }) s)
    | inr z ↦ rw z
  ]

  pub enable_cvo-view :
      (client : Client S) (s : S) → IsQuiet client → view (enable_cvo client s) ≡ view s
  unfolding enable_cvo
  enable_cvo-view client s q =
      let (r, s') = client.deployments.get cvo_namespace cvo_name s in
      enable_cvo_after-view client r s' q ∙ q.get cvo_namespace cvo_name s

  pub initiate_rollback-view :
      (client : Client S) (phases : List (Phase S)) (m : Migration) (s : S)
      → IsQuiet client
      → All (KeepsView view) phases
      → view (initiate_rollback client phases m s).2 ≡ view s
  unfolding initiate_rollback
  initiate_rollback-view client phases m s q k =
      let started = record m { status = record m.status { phase = rolling_back } } in
      let es = reverse m.status.phase_history in
      enable_cvo-view client (roll_back_entries phases es started s).1 q
      ∙ roll_back_entries-view phases es started s k

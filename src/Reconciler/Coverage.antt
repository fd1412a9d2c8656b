-- ===== src/Reconciler/Coverage.antt =====
-- The phases that a rollback can reach.
use openshift_vsphere_migrat.Base.{◌≡◌, refl, ◌≢◌, none, some, inl, inr, ◌⊎◌}
use openshift_vsphere_migrat.Api.{
  MigrationPhase, preflight, backup, disable_cvo, update_secrets, create_tags, create_folder,
  delete_cpms, update_infrastructure, update_config, restart_pods, monitor_health, create_workers,
  recreate_cpms, scale_old_machines, cleanup, verify, phase_beq, phase_eq,
}
use openshift_vsphere_migrat.Executor.{Phase}
use openshift_vsphere_migrat.StateMachine.{find_phase}
use openshift_vsphere_migrat.Reconciler.Phases.{
  PhaseBodies, get_phase_implementation, get_all_phases,
}

module _ {S : Type 0} (bodies : PhaseBodies S) where
  -- A phase that can be executed is RecreateCPMS, and then it is missing from the list of a
  -- rollback, or it is another phase, and then the list finds the implementation that is executed.
  pub rollback_reach :
      (p : MigrationPhase) (phase : Phase S)
      → get_phase_implementation bodies p ≡ some phase
      → (p ≡ recreate_cpms) × (find_phase p (get_all_phases bodies) ≡ none)
        ⊎ (p ≢ recreate_cpms) × (find_phase p (get_all_phases bodies) ≡ some phase)
  unfolding get_phase_implementation get_all_phases find_phase phase_beq
  rollback_reach recreate_cpms phase h = inl (refl, refl)
  rollback_reach preflight phase h = inr (λ e. cc, h)
  rollback_reach backup phase h = inr (λ e. cc, h)
  rollback_reach disable_cvo phase h = inr (λ e. cc, h)
  rollback_reach update_secrets phase h = inr (λ e. cc, h)
  rollback_reach create_tags phase h = inr (λ e. cc, h)
  rollback_reach create_folder phase h = inr (λ e. cc, h)
  rollback_reach delete_cpms phase h = inr (λ e. cc, h)
  rollback_reach update_infrastructure phase h = inr (λ e. cc, h)
  rollback_reach update_config phase h = inr (λ e. cc, h)
  rollback_reach restart_pods phase h = inr (λ e. cc, h)
  rollback_reach monitor_health phase h = inr (λ e. cc, h)
  rollback_reach create_workers phase h = inr (λ e. cc, h)
  rollback_reach scale_old_machines phase h = inr (λ e. cc, h)
  rollback_reach cleanup phase h = inr (λ e. cc, h)
  rollback_reach verify phase h = inr (λ e. cc, h)
  rollback_reach p phase h = cc

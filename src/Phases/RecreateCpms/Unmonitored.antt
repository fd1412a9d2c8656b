-- ===== src/Phases/RecreateCpms/Unmonitored.antt =====
-- The first execution of pkg/controller/phases/recreate_cpms.go.
use openshift_vsphere_migrat.Base.{
  String, ◌≡◌, Bool, true, false, Option, none, GoError, Result, ok, err,
}
use openshift_vsphere_migrat.Base.Int32.{Int32}
use openshift_vsphere_migrat.Api.{recreate_cpms, PhaseStatus, Migration}
use openshift_vsphere_migrat.Executor.{resumes}
use openshift_vsphere_migrat.Infrastructure.{get_infrastructure_id}
use openshift_vsphere_migrat.Machines.ControlPlane.{
  wait_for_cpms_inactive, update_cpms_failure_domain, is_cpms_generation_observed,
  check_control_plane_rollout_status,
}
use openshift_vsphere_migrat.Phases.Flow.{run}
use openshift_vsphere_migrat.Phases.Passing.{
  PassesAt, EndsAt, PassesAt-pure, PassesAt-log, PassesAt-call, PassesAt-try, PassesAt-bind,
  EndsAt-bind, EndsAt-finish, run-EndsAt,
}
use openshift_vsphere_migrat.Phases.Managers.{PhaseExecutor}
use openshift_vsphere_migrat.Phases.RecreateCpms.{
  five_minutes, start_of, start, check_observed, monitor, after_status, execute,
}

module _ {S : Type 0} (executor : PhaseExecutor S) where
  -- The check failed, or has seen the new generation.
  abbrev pub NotBehind : Result Bool → Type 0
  NotBehind (err e) = Unit
  NotBehind (ok b) = b ≡ true

  check_observed-NotBehind :
      (r : Result Bool) (s : S) → NotBehind r → PassesAt (check_observed executor r) s tt s
  unfolding check_observed
  check_observed-NotBehind (err e) s h = PassesAt-pure tt s
  check_observed-NotBehind (ok true) s h = PassesAt-pure tt s
  check_observed-NotBehind (ok false) s h = cc

  module _ (m : Migration) (id : String) (s s₁ s₂ s₃ : S) where
    start-PassesAt :
        wait_for_cpms_inactive executor.machine_manager five_minutes s ≡ (ok tt, s₁)
        → get_infrastructure_id executor.infra_manager s₁ ≡ (ok id, s₂)
        → update_cpms_failure_domain executor.machine_manager m id s₂ ≡ (ok tt, s₃)
        → PassesAt (start executor m) s tt s₃
    unfolding start
    start-PassesAt q₁ q₂ q₃ = PassesAt-bind _ _ s tt s tt s₃ (PassesAt-log _ _ _ _ s) (
        PassesAt-bind _ _ s tt s tt s₃ (PassesAt-log _ _ _ _ s) (
          PassesAt-bind _ _ s tt s₁ tt s₃ (PassesAt-call _ _ s tt s₁ q₁) (
            PassesAt-bind _ _ s₁ tt s₁ tt s₃ (PassesAt-log _ _ _ _ s₁) (
              PassesAt-bind _ _ s₁ id s₂ tt s₃ (PassesAt-call _ _ s₁ id s₂ q₂) (
                PassesAt-bind _ _ s₂ tt s₂ tt s₃ (PassesAt-log _ _ _ _ s₂) (
                  PassesAt-bind _ _ s₂ tt s₃ tt s₃ (PassesAt-call _ _ s₂ tt s₃ q₃)
                    (PassesAt-log _ _ _ _ s₃)))))))

    complete-EndsAt :
        (replicas updated ready : Int32) (t : S)
        → start_of m.status.current_phase_state ≡ none
        → EndsAt
            (after_status executor m (true, replicas, updated, ready))
            t
            (PhaseStatus.completed, none, t)
    unfolding after_status monitor
    complete-EndsAt replicas updated ready t h = rw h (
        EndsAt-bind _ _ t tt t _ (PassesAt-pure tt t)
          (EndsAt-bind _ _ t tt t _ (PassesAt-log _ _ _ _ t) (EndsAt-finish _ _ _ _ none t)))

    -- A first execution, whose start time is not set, in which the machine set becomes inactive and is
    -- updated: if the check of its generation fails or finds the new one observed, and the replicas look
    -- complete, then the phase completes at once, however short the time since the update, and the
    -- minimum monitoring period is not kept.
    pub first_execution-completed :
        (r : Result Bool) (replicas updated ready : Int32) (t u : S)
        → resumes recreate_cpms m.status.current_phase_state ≡ false
        → start_of m.status.current_phase_state ≡ none
        → wait_for_cpms_inactive executor.machine_manager five_minutes s ≡ (ok tt, s₁)
        → get_infrastructure_id executor.infra_manager s₁ ≡ (ok id, s₂)
        → update_cpms_failure_domain executor.machine_manager m id s₂ ≡ (ok tt, s₃)
        → is_cpms_generation_observed executor.machine_manager s₃ ≡ (r, t)
        → NotBehind r
        → check_control_plane_rollout_status executor.machine_manager t
          ≡ (ok (true, replicas, updated, ready), u)
        → let (result, e, a, w) = run (execute executor m) m s in
          ◌≡◌ {A = PhaseStatus × Option GoError × S}
            (result.status, e, w)
            (PhaseStatus.completed, none, u)
    unfolding execute
    first_execution-completed r replicas updated ready t u first unset q₁ q₂ q₃ q₄ seen q₅ =
        run-EndsAt _ m s _ (
          rw first (
            EndsAt-bind _ _ s tt s₃ _ (start-PassesAt q₁ q₂ q₃) (
              EndsAt-bind _ _ s₃ tt s₃ _ (PassesAt-log _ _ _ _ s₃) (
                EndsAt-bind _ _ s₃ r t _ (PassesAt-try _ s₃ r t q₄) (
                  EndsAt-bind _ _ t tt t _ (check_observed-NotBehind r t seen) (
                    EndsAt-bind _ _ t _ u _ (PassesAt-call _ _ t _ u q₅)
                      (complete-EndsAt replicas updated ready u unset)))))))

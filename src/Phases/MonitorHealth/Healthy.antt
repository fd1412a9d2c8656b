-- ===== src/Phases/MonitorHealth/Healthy.antt =====
-- When `Execute` of pkg/controller/phases/monitor_health.go completes.
use openshift_vsphere_migrat.Base.{
  ℕ, ◌≡◌, refl, ap, ◌∙◌, Bool, true, false, List, Message, none, Option, GoError, ok, if◌then◌else◌,
}
use openshift_vsphere_migrat.Base.Exec.{◌>>=◌}
use openshift_vsphere_migrat.Api.{Time, PhaseStatus, Migration}
use openshift_vsphere_migrat.Operators.{
  ClusterOperator, OperatorClient, unhealthy_operators, verdict_on, check_all_operators_healthy,
}
use openshift_vsphere_migrat.Operators.Verdict.{all_well, verdict_on-all_well}
use openshift_vsphere_migrat.Phases.Flow.{Step, PhaseEnd, run}
use openshift_vsphere_migrat.Phases.Passing.{
  EndsAt, PassesAt-pure, PassesAt-log, PassesAt-call, EndsAt-bind, EndsAt-finish, EndsAt-stop,
  StopsAt-finish, StopsAt-bind, run-EndsAt,
}
use openshift_vsphere_migrat.Phases.MonitorHealth.{check_verdict, execute}

module _ {S : Type 0} (now : S → Time) (client : OperatorClient S) (turns : ℕ) where
  abbrev status_for : Bool → PhaseStatus
  status_for b = if b then PhaseStatus.completed else PhaseStatus.running

  after_verdict :
      (v : Bool × List Message) (rest : Unit {0} → Step S PhaseEnd) (t : S)
      → EndsAt (rest tt) t (PhaseStatus.completed, none, t)
      → EndsAt
          (openshift_vsphere_migrat.Phases.Flow.◌>>=◌ (check_verdict now client turns v) rest)
          t
          (status_for v.0, none, t)
  unfolding check_verdict
  after_verdict (true, names) rest t h = EndsAt-bind _ rest t tt t _ (PassesAt-pure tt t) h
  after_verdict (false, names) rest t h =
      EndsAt-stop _ rest t _
        (StopsAt-bind _ _ t tt t _ (PassesAt-log _ _ _ _ t) (StopsAt-finish _ _ _ _ none t))

  checked :
      (os : List ClusterOperator) (s t : S)
      → client.list s ≡ (ok os, t)
      → check_all_operators_healthy client turns s ≡ (ok (verdict_on (unhealthy_operators os)), t)
  unfolding check_all_operators_healthy ◌>>=◌
  checked os s t q = rw q refl

  -- Once the operators are listed, the phase returns no error and completes exactly if, of every
  -- operator but machine-config, the last condition of type Available is true and the last of type
  -- Degraded, where there is one, is not; otherwise it goes on. No node is looked at.
  pub execute-all_well :
      (m : Migration) (os : List ClusterOperator) (s t : S)
      → client.list s ≡ (ok os, t)
      → let (r, e, a, u) = run (execute now client turns) m s in
        ◌≡◌ {A = PhaseStatus × Option GoError × S}
          (r.status, e, u)
          ((if all_well os then PhaseStatus.completed else PhaseStatus.running), none, t)
  unfolding execute
  execute-all_well m os s t q =
      run-EndsAt _ m s _ (
        EndsAt-bind _ _ s tt s _ (PassesAt-log _ _ _ _ s) (
          EndsAt-bind _ _ s tt s _ (PassesAt-log _ _ _ _ s) (
            EndsAt-bind _ _ s _ t _ (PassesAt-call _ _ s _ t (checked os s t q)) (
              after_verdict (verdict_on (unhealthy_operators os)) _ t (
                EndsAt-bind _ _ t tt t _ (PassesAt-log _ _ _ _ t) (
                  EndsAt-bind _ _ t tt t _ (PassesAt-log _ _ _ _ t) (
                    EndsAt-bind _ _ t tt t _ (PassesAt-log _ _ _ _ t)
                      (EndsAt-finish _ _ _ _ none t))))))))
      ∙ ap (λ b. (status_for b, none, t)) (verdict_on-all_well os)

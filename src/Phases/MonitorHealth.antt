-- ===== src/Phases/MonitorHealth.antt =====
-- pkg/controller/phases/monitor_health.go.
pub mod Healthy
use openshift_vsphere_migrat.Base.{
  ℕ, Bool, true, false, List, [], ◌∷◌, ◌++◌, none, Message, msg, lit,
}
use openshift_vsphere_migrat.Base.Exec.{Exec, pure as pure_exec}
use openshift_vsphere_migrat.Api.{Time, monitor_health, PhaseStatus, LogLevel, Migration}
use openshift_vsphere_migrat.Operators.{OperatorClient, check_all_operators_healthy}
use openshift_vsphere_migrat.Reconciler.Phases.{PhaseBody}
use openshift_vsphere_migrat.Phases.Flow.{
  PhaseEnd, Step, pure, finish, call, log, run, roll_back, ◌>>=◌, ◌>>◌,
}

-- `strings.Join(unhealthyList, ", ")`
abbrev join_names : List Message → Message
join_names [] = []
join_names (m ∷ []) = m
join_names (m ∷ m' ∷ ms) = m ++ lit ", " ∷ join_names (m' ∷ ms)

module _ {S : Type 0} (now : S → Time) (client : OperatorClient S) (turns : ℕ) where
  abbrev info : Message → Step S (Unit {0})
  info = log now monitor_health LogLevel.info

  unfoldable pub check_verdict : Bool × List Message → Step S (Unit {0})
  check_verdict (true, names) = pure tt
  check_verdict (false, names) = do
    let text = lit "Waiting for operators to become healthy: " ∷ join_names names
    info text
    finish PhaseStatus.running text 50 15000000000 none

  -- The nodes are not looked at.
  unfoldable pub execute : Step S PhaseEnd
  unfolding check_verdict
  execute = do
    info (msg "Checking cluster health")
    info (msg "Checking cluster operators health")
    verdict ←
        call (check_all_operators_healthy client turns) (msg "Failed to check operator health: ")
    check_verdict verdict
    info (msg "All cluster operators are healthy")
    info (msg "Checking node health")
    info (msg "All nodes are healthy")
    finish PhaseStatus.completed (msg "Cluster health check passed") 100 0 none

  unfoldable pub monitor_health_body : PhaseBody S
  unfolding execute run roll_back
  monitor_health_body = record {
    validate = λ m. pure_exec tt;
    execute = λ m. run execute m;
    rollback = roll_back (pure_exec tt);
  }

-- ===== src/Phases/RestartPods.antt =====
-- pkg/controller/phases/restart_pods.go.
use openshift_vsphere_migrat.Base.{
  ℕ, Bool, true, false, ◌∷◌, none, Message, msg, lit, if◌then◌else◌,
}
use openshift_vsphere_migrat.Base.Exec.{pure as pure_exec}
use openshift_vsphere_migrat.Api.{Time, restart_pods, PhaseStatus, LogLevel, Migration}
use openshift_vsphere_migrat.Executor.{resumes}
use openshift_vsphere_migrat.Pods.{
  PodClient, VspherePodsStatus, restart_vsphere_pods, check_vsphere_pods_ready,
}
use openshift_vsphere_migrat.Reconciler.Phases.{PhaseBody}
use openshift_vsphere_migrat.Phases.Flow.{
  PhaseEnd, Step, pure, finish, call, log, run, roll_back, ◌>>=◌, ◌>>◌,
}

module _ {S : Type 0} (now : S → Time) (client : PodClient S) (turns : ℕ) where
  abbrev info : Message → Step S (Unit {0})
  info = log now restart_pods LogLevel.info

  -- Only the first execution restarts the pods.
  unfoldable pub start : Bool → Step S (Unit {0})
  start true = info (msg "Resuming pod readiness check")
  start false = do
    info (msg "Restarting vSphere-related pods")
    call (restart_vsphere_pods client turns) (msg "Failed to restart vSphere pods: ")
    info (msg "Triggered restart of vSphere pods")

  unfoldable pub check_status : VspherePodsStatus → Step S (Unit {0})
  check_status status = if status.all_ready then pure tt else do
    let text = lit "Waiting for vSphere pods: " ∷ status.not_ready_reason
    info text
    finish PhaseStatus.running text 50 15000000000 none

  unfoldable pub execute : Migration → Step S PhaseEnd
  unfolding start check_status
  execute m = do
    start (resumes restart_pods m.status.current_phase_state)
    info (msg "Checking vSphere pods readiness")
    status ← call (check_vsphere_pods_ready client turns) (msg "Failed to check vSphere pods: ")
    check_status status
    info (msg "All vSphere pods are ready")
    finish PhaseStatus.completed (msg "Successfully restarted all vSphere pods") 100 0 none

  unfoldable pub restart_pods_body : PhaseBody S
  unfolding execute run roll_back
  restart_pods_body = record {
    validate = λ m. pure_exec tt;
    execute = λ m. run (execute m) m;
    rollback = roll_back (pure_exec tt);
  }

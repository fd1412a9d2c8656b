-- ===== src/Phases/DisableCvo.antt =====
-- pkg/controller/phases/disable_cvo.go.
use openshift_vsphere_migrat.Base.{[], ◌∷◌, Option, none, some, Message, msg, lit, number}
use openshift_vsphere_migrat.Base.Exec.{Exec, pure as pure_exec, ◌>>=◌ as and_then}
use openshift_vsphere_migrat.Base.Int32.{Int32}
use openshift_vsphere_migrat.Api.{disable_cvo, PhaseStatus, LogLevel}
use openshift_vsphere_migrat.Kube.{Client}
use openshift_vsphere_migrat.StateMachine.{cvo_namespace, cvo_name}
use openshift_vsphere_migrat.Reconciler.Phases.{PhaseBody}
use openshift_vsphere_migrat.Phases.Flow.{
  PhaseEnd, Step, finish, call, log, run, roll_back, ◌>>=◌, ◌>>◌,
}
use openshift_vsphere_migrat.Phases.Managers.{panic}

module _ {S : Type 0} (client : Client S) where
  abbrev info : Message → Step S (Unit {0})
  info = log client.now disable_cvo LogLevel.info

  -- `*deployment.Spec.Replicas`
  log_replicas : Option Int32 → Step S (Unit {0})
  unfolding panic
  log_replicas none = panic "invalid memory address or nil pointer dereference"
  log_replicas (some n) = info (lit "Current CVO replicas: " ∷ number n ∷ [])

  unfoldable pub execute : Step S PhaseEnd
  unfolding log_replicas
  execute = do
    info (msg "Scaling down cluster-version-operator")
    deployment ←
        call (client.deployments.get cvo_namespace cvo_name) (msg "Failed to get CVO deployment: ")
    log_replicas deployment.replicas
    call (client.deployments.update cvo_namespace (record deployment { replicas = some 0 }))
        (msg "Failed to scale down CVO: ")
    info (msg "Successfully scaled down CVO to 0 replicas")
    finish PhaseStatus.completed (msg "Successfully scaled down CVO") 100 0 none

  -- What follows the `Get`: the replicas become 1, whatever they were.
  unfoldable pub rollback : Exec S (Unit {0})
  rollback = and_then (client.deployments.get cvo_namespace cvo_name) (λ deployment.
      client.deployments.update cvo_namespace (record deployment { replicas = some 1 }))

  unfoldable pub disable_cvo_body : PhaseBody S
  unfolding execute rollback run roll_back
  disable_cvo_body = record {
    validate = λ m. pure_exec tt;
    execute = λ m. run execute m;
    rollback = roll_back rollback;
  }

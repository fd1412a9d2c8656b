-- ===== src/Phases/CreateWorkers.antt =====
-- pkg/controller/phases/create_workers.go.
use openshift_vsphere_migrat.Base.{
  String, ◌<>◌, Bool, true, false, List, [], ◌∷◌, Option, none, some, Message, msg, lit, number,
  errorf, Result, ok, err, if◌then◌else◌, ◌==◌, string_eq,
}
use openshift_vsphere_migrat.Base.Exec.{
  Exec, pure as pure_exec, raise, wrap_error, ◌>>=◌ as and_then,
}
use openshift_vsphere_migrat.Base.Int32.{Int32, lt, add}
use openshift_vsphere_migrat.Api.{
  Duration, create_workers, PhaseStatus, LogLevel, FailureDomain, Migration,
}
use openshift_vsphere_migrat.Infrastructure.{get_infrastructure_id}
use openshift_vsphere_migrat.Machines.Types.{MachineSet}
use openshift_vsphere_migrat.Machines.Sets.{
  find_domain, get_machine_set, get_machine_sets_by_vcenter, create_worker_machine_set,
  delete_machine_set,
}
use openshift_vsphere_migrat.Machines.Readiness.{check_machines_ready, check_nodes_ready}
use openshift_vsphere_migrat.Reconciler.Phases.{PhaseBody}
use openshift_vsphere_migrat.Phases.Flow.{
  PhaseEnd, Step, pure, finish, call, try, log, run, roll_back, ◌>>=◌, ◌>>◌,
}
use openshift_vsphere_migrat.Phases.Managers.{PhaseExecutor}

abbrev thirty_seconds : Duration
thirty_seconds = 30000000000

-- `fmt.Sprintf("%s-worker-%s", infraID, failureDomain)`
unfoldable pub machine_set_name : String → Migration → String
machine_set_name infra_id m = infra_id <> ("-worker-" <> m.spec.machine_set_config.failure_domain)

module _ {S : Type 0} (executor : PhaseExecutor S) where
  abbrev info : Message → Step S (Unit {0})
  info = log executor.kube_client.now create_workers LogLevel.info

  -- The log entry and the result of a phase that goes on.
  unfoldable pub keep_waiting : {A : Type 0} → Message → Int32 → Step S A
  keep_waiting text progress = do
    info text
    finish PhaseStatus.running text progress thirty_seconds none

  unfoldable pub check_domain : String → Option FailureDomain → Step S (Unit {0})
  check_domain target none =
      finish PhaseStatus.failed
        (lit "failure domain "
          ∷ lit target
          ∷ lit " not found in VmwareCloudFoundationMigration CR"
          ∷ [])
        0 0 (some (errorf (lit "failure domain " ∷ lit target ∷ lit " not found" ∷ [])))
  check_domain target (some fd) =
      if fd.topology.template == ""
      then finish PhaseStatus.failed
          (lit "template not specified in failure domain " ∷ lit target ∷ lit " topology" ∷ []) 0 0
          (some (errorf (msg "template required but not specified")))
      else pure tt

  unfoldable pub check_machines : Bool × Int32 × Int32 → Step S (Unit {0})
  unfolding keep_waiting
  check_machines (true, ready, total) = pure tt
  check_machines (false, ready, total) =
      keep_waiting
        (lit "Waiting for machines: " ∷ number ready ∷ lit "/" ∷ number total ∷ lit " ready" ∷ [])
        (if lt 0 total then executor.share ready total 50 else 0)

  unfoldable pub check_nodes : Bool × Int32 × Int32 → Step S (Unit {0})
  unfolding keep_waiting
  check_nodes (true, ready, total) = pure tt
  check_nodes (false, ready, total) =
      keep_waiting
        (lit "Waiting for nodes: " ∷ number ready ∷ lit "/" ∷ number total ∷ lit " ready" ∷ [])
        (if lt 0 total then add 50 (executor.share ready total 50) else 50)

  -- The set is there.
  unfoldable pub await_existing : String → Step S PhaseEnd
  unfolding check_machines check_nodes
  await_existing name = do
    info (lit "MachineSet " ∷ lit name ∷ lit " already exists (idempotent)" ∷ [])
    machines ←
        call (check_machines_ready executor.machine_manager name) (msg "Failed to check machines: ")
    check_machines machines
    nodes ← call (check_nodes_ready executor.machine_manager name) (msg "Failed to check nodes: ")
    check_nodes nodes
    finish PhaseStatus.completed
        (lit "MachineSet already exists with "
          ∷ number machines.1
          ∷ lit "/"
          ∷ number machines.2
          ∷ lit " machines ready"
          ∷ [])
        100 0 none

  unfoldable pub first_set : List MachineSet → Step S MachineSet
  first_set (ms ∷ rest) = pure ms
  first_set [] =
      finish PhaseStatus.failed (msg "No existing MachineSets to use as template") 0 0
        (some (errorf (msg "no existing MachineSets found")))

  unfoldable pub create : Migration → String → String → Step S PhaseEnd
  unfolding first_set keep_waiting
  create m infra_id name = do
    sets ←
        call (get_machine_sets_by_vcenter executor.machine_manager "")
          (msg "Failed to get existing MachineSets: ")
    template ← first_set sets
    info (lit "Using MachineSet " ∷ lit template.name ∷ lit " as template" ∷ [])
    info (lit "Creating new MachineSet " ∷ lit name ∷ [])
    created ←
        call (create_worker_machine_set executor.machine_manager name m template infra_id)
          (msg "Failed to create MachineSet: ")
    info (
        lit "Created MachineSet "
        ∷ lit created.name
        ∷ lit " with "
        ∷ number m.spec.machine_set_config.replicas
        ∷ lit " replicas"
        ∷ [])
    keep_waiting
        (lit "Created MachineSet "
          ∷ lit created.name
          ∷ lit ", waiting for machines to provision"
          ∷ [])
        10

  -- Any error of the lookup counts as a set that is not there.
  unfoldable pub await_or_create : Migration → String → String → Result MachineSet → Step S PhaseEnd
  unfolding await_existing create
  await_or_create m infra_id name (ok ms) = await_existing name
  await_or_create m infra_id name (err e) = create m infra_id name

  unfoldable pub execute : Migration → Step S PhaseEnd
  unfolding check_domain await_or_create machine_set_name
  execute m = do
    let config = m.spec.machine_set_config
    info (
        lit "Creating "
        ∷ number config.replicas
        ∷ lit " worker machines in failure domain "
        ∷ lit config.failure_domain
        ∷ [])
    check_domain config.failure_domain (find_domain config.failure_domain m.spec.failure_domains)
    infra_id ←
        call (get_infrastructure_id executor.infra_manager)
          (msg "Failed to get infrastructure ID: ")
    let name = machine_set_name infra_id m
    existing ← try (get_machine_set executor.machine_manager name)
    await_or_create m infra_id name existing

  unfoldable pub validate : Migration → Exec S (Unit {0})
  validate m =
      if lt 0 m.spec.machine_set_config.replicas
      then (if m.spec.machine_set_config.failure_domain == ""
          then raise (errorf (msg "worker failure domain is empty"))
          else pure_exec tt)
      else raise (errorf (msg "worker replicas must be greater than 0"))

  unfoldable pub rollback : Migration → Exec S (Unit {0})
  unfolding machine_set_name
  rollback m =
      and_then
        (wrap_error (msg "failed to get infrastructure ID")
          (get_infrastructure_id executor.infra_manager))
        (λ infra_id. delete_machine_set executor.machine_manager (machine_set_name infra_id m))

  unfoldable pub create_workers_body : PhaseBody S
  unfolding execute validate rollback run roll_back
  create_workers_body = record {
    validate = validate;
    execute = λ m. run (execute m) m;
    rollback = λ m. roll_back (rollback m) m;
  }

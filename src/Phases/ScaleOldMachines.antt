-- ===== src/Phases/ScaleOldMachines.antt =====
-- pkg/controller/phases/scale_old.go.
pub mod Resumed
use openshift_vsphere_migrat.Base.{
  Bool, true, false, not, String, List, [], ◌∷◌, ◌-◌, ◌%◌, Option, none, some, Message, msg, lit,
  number, duration, GoError, errorf, Result, ok, err, if◌then◌else◌, ltb, ◌==◌, nat_eq, length,
}
use openshift_vsphere_migrat.Base.Exec.{Exec, pure as pure_exec, gets, ◌>>=◌ as and_then}
use openshift_vsphere_migrat.Base.Int32.{Int32, add, lt}
use openshift_vsphere_migrat.Api.{
  Time, Duration, scale_old_machines, PhaseStatus, PhaseState, LogLevel, Migration,
}
use openshift_vsphere_migrat.Executor.{resumes}
use openshift_vsphere_migrat.Infrastructure.{get_source_vcenter}
use openshift_vsphere_migrat.Machines.Types.{MachineSet}
use openshift_vsphere_migrat.Machines.Sets.{get_machine_sets_by_vcenter, scale_machine_set}
use openshift_vsphere_migrat.Machines.Readiness.{
  check_machines_deleted, check_nodes_deleted_for_machines,
}
use openshift_vsphere_migrat.Reconciler.Phases.{PhaseBody}
use openshift_vsphere_migrat.Phases.Flow.{
  PhaseEnd, Step, pure, finish, call, try, log, run, roll_back, ◌>>=◌, ◌>>◌,
}
use openshift_vsphere_migrat.Phases.Managers.{PhaseExecutor}

-- 45 minutes
abbrev scale_old_machines_timeout : Duration
scale_old_machines_timeout = 2700000000000

abbrev thirty_seconds : Duration
thirty_seconds = 30000000000

abbrev start_of : Option PhaseState → Option Time
start_of none = none
start_of (some state) = state.start_time

-- Replicas that are not set are not 0.
abbrev is_zero : Option Int32 → Bool
is_zero none = false
is_zero (some n) = n == 0

abbrev is_positive : Option Int32 → Bool
is_positive none = false
is_positive (some n) = not (n == 0)

-- What a check adds to the total. An error adds nothing.
abbrev pub added : Int32 → Result (Bool × Int32) → Int32
added total (err e) = total
added total (ok (true, remaining)) = total
added total (ok (false, remaining)) = add total remaining

module _ {S : Type 0} (executor : PhaseExecutor S) where
  log_at : LogLevel → Message → Step S (Unit {0})
  log_at = log executor.kube_client.now scale_old_machines

  abbrev info : Message → Step S (Unit {0})
  info = log executor.kube_client.now scale_old_machines LogLevel.info

  -- The log entry and the result of a phase that goes on.
  unfoldable pub keep_waiting : {A : Type 0} → Message → Int32 → Step S A
  keep_waiting text progress = do
    info text
    finish PhaseStatus.running text progress thirty_seconds none

  unfoldable pub scale_to_zero : MachineSet → Step S (Unit {0})
  scale_to_zero ms =
      call (scale_machine_set executor.machine_manager ms.name 0)
        (lit "Failed to scale down MachineSet " ∷ lit ms.name ∷ lit ": " ∷ [])

  -- The loop of the first execution.
  unfoldable pub scale_down : List MachineSet → Step S (Unit {0})
  unfolding scale_to_zero
  scale_down [] = pure tt
  scale_down (ms ∷ rest) = do
    if is_zero ms.replicas then pure tt else do
      info (lit "Scaling down MachineSet " ∷ lit ms.name ∷ lit " to 0 replicas" ∷ [])
      scale_to_zero ms
    scale_down rest

  -- The loop of a resumed one.
  unfoldable pub scale_missing : List MachineSet → Step S (Unit {0})
  unfolding scale_to_zero
  scale_missing [] = pure tt
  scale_missing (ms ∷ rest) = do
    if is_positive ms.replicas then scale_to_zero ms else pure tt
    scale_missing rest

  unfoldable pub old_machine_sets : String → Step S (List MachineSet)
  old_machine_sets server =
      call (get_machine_sets_by_vcenter executor.machine_manager server)
        (msg "Failed to get old MachineSets: ")

  unfoldable pub source_server : Step S String
  source_server = do
    vcenter ←
        call (get_source_vcenter executor.infra_manager)
          (msg "Failed to get source vCenter from Infrastructure: ")
    pure vcenter.server

  unfoldable pub scale_found : List MachineSet → Step S PhaseEnd
  unfolding scale_down
  scale_found [] = do
    info (msg "No old MachineSets found")
    finish PhaseStatus.completed (msg "No old MachineSets to scale down") 100 0 none
  scale_found (ms ∷ rest) = do
    info (lit "Found " ∷ number (length (ms ∷ rest)) ∷ lit " old MachineSets" ∷ [])
    scale_down (ms ∷ rest)
    info (msg "All old MachineSets scaled to 0, waiting for machines and nodes to be deleted")
    finish PhaseStatus.running
        (msg "Old MachineSets scaled to 0, waiting for machine and node deletion") 10 thirty_seconds
        none

  unfoldable pub execute_first : Step S PhaseEnd
  unfolding source_server old_machine_sets scale_found
  execute_first = do
    info (msg "Scaling down old worker machines")
    server ← source_server
    info (lit "Finding old MachineSets from source vCenter: " ∷ lit server ∷ [])
    sets ← old_machine_sets server
    scale_found sets

  -- A start in the future counts as one just now.
  unfoldable pub check_timeout : Option Time → Step S (Unit {0})
  unfolding log_at
  check_timeout none = pure tt
  check_timeout (some started) = do
    now ← call (gets executor.kube_client.now) []
    let elapsed = now - started
    let text =
        lit "Timed out waiting for machine/node deletion after "
        ∷ duration (elapsed - elapsed % 1000000000)
        ∷ []
    if ltb scale_old_machines_timeout elapsed
        then (log_at LogLevel.error text >> finish PhaseStatus.failed text 0 0 (some (errorf text)))
        else pure tt

  -- The loops over the checks of the machines and of their nodes.
  unfoldable pub total_of :
      (String → Exec S (Bool × Int32)) → List MachineSet → Int32 → Step S Int32
  total_of check [] total = pure total
  total_of check (ms ∷ rest) total = do r ← try (check ms.name); total_of check rest (added total r)

  unfoldable pub execute_resumed : Migration → Step S PhaseEnd
  unfolding keep_waiting source_server old_machine_sets scale_missing check_timeout total_of
  execute_resumed m = do
    info (msg "Checking machine and node deletion status")
    check_timeout (start_of m.status.current_phase_state)
    server ← source_server
    sets ← old_machine_sets server
    scale_missing sets
    machines ← total_of (check_machines_deleted executor.machine_manager) sets 0
    if lt 0 machines
        then keep_waiting
            (lit "Waiting for " ∷ number machines ∷ lit " machines to be deleted" ∷ []) 30
        else pure tt
    nodes ← total_of (check_nodes_deleted_for_machines executor.machine_manager) sets 0
    if lt 0 nodes
        then keep_waiting
            (lit "Machines deleted, waiting for " ∷ number nodes ∷ lit " nodes to be removed" ∷ [])
            60
        else pure tt
    info (msg "All old machines and nodes have been deleted")
    finish PhaseStatus.completed (msg "All old machines and nodes have been deleted") 100 0 none

  unfoldable pub execute : Migration → Step S PhaseEnd
  unfolding execute_first execute_resumed
  execute m =
      if resumes scale_old_machines m.status.current_phase_state
      then execute_resumed m
      else execute_first

  -- Each set is scaled to 3, and an error is logged only.
  unfoldable pub restore_each : List MachineSet → Exec S (Unit {0})
  restore_each [] s = (ok tt, s)
  restore_each (ms ∷ rest) s =
      restore_each rest (scale_machine_set executor.machine_manager ms.name 3 s).1

  unfoldable pub rollback : Exec S (Unit {0})
  unfolding restore_each
  rollback = and_then (get_source_vcenter executor.infra_manager) λ vcenter.
      and_then (get_machine_sets_by_vcenter executor.machine_manager vcenter.server) restore_each

  unfoldable pub scale_old_machines_body : PhaseBody S
  unfolding execute rollback run roll_back
  scale_old_machines_body = record {
    validate = λ m. pure_exec tt;
    execute = λ m. run (execute m) m;
    rollback = roll_back rollback;
  }

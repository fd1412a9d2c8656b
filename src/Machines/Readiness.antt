-- ===== src/Machines/Readiness.antt =====
-- The counts of machines and nodes, and the waits for them.
use openshift_vsphere_migrat.Base.{
  String, Bool, true, false, ◌&&◌, List, [], ◌∷◌, Option, none, some, Message, msg, lit, Result, ok,
  err, if◌then◌else◌, ◌==◌, string_eq, nat_eq, any, length,
}
use openshift_vsphere_migrat.Base.Exec.{Exec, pure, ◌>>=◌, wrap_error}
use openshift_vsphere_migrat.Base.Int32.{Int32, add, wrap, lt}
use openshift_vsphere_migrat.Api.{Duration}
use openshift_vsphere_migrat.Ticker.{wait}
use openshift_vsphere_migrat.Machines.Types.{Machine, Node, MachineManager, with_client}

abbrev has_node : Option String → Bool
has_node none = false
has_node (some n) = true

abbrev is_phase : String → Option String → Bool
is_phase p none = false
is_phase p (some q) = q == p

abbrev pub is_machine_ready : Machine → Bool
is_machine_ready machine = has_node machine.node_ref && is_phase "Running" machine.phase

-- `ready++` on an int32.
unfoldable pub ready_machines : List Machine → Int32 → Int32
ready_machines [] ready = ready
ready_machines (machine ∷ machines) ready =
    ready_machines machines (if is_machine_ready machine then add ready 1 else ready)

abbrev pub is_node_ready : Node → Bool
is_node_ready node = any (λ c. c.0 == "Ready" && c.1 == "True") node.conditions

-- A node that cannot be read counts as not ready.
abbrev node_verdict : Result Node → Int32 → Int32
node_verdict (err e) ready = ready
node_verdict (ok node) ready = if is_node_ready node then add ready 1 else ready

abbrev pub all_ready : Int32 × Int32 → Bool
all_ready (ready, total) = ready == total && lt 0 total

abbrev pub list_failed : String → Message
list_failed name = lit "failed to list machines for MachineSet " ∷ lit name ∷ []

-- Any error of the lookup counts as a node that is gone.
abbrev pub still_there : Result Node → Int32 → Int32
still_there (err e) remaining = remaining
still_there (ok node) remaining = add remaining 1

module _ {S : Type 0} (manager : MachineManager S) where
  -- `getMachineStatus`: the ready machines, and all.
  unfoldable pub get_machine_status : String → Exec S (Int32 × Int32)
  unfolding ready_machines
  get_machine_status name =
      with_client
        (λ client. do
          machines ← client.list_machines name
          pure (ready_machines machines 0, wrap (length machines)))
        manager.machine_client

  -- The loop of `getNodeStatus` over the machines that have a node.
  unfoldable pub count_nodes : List Machine → Int32 → Int32 → S → (Int32 × Int32) × S
  count_nodes [] ready total s = ((ready, total), s)
  count_nodes (machine ∷ machines) ready total s = elim machine.node_ref [
    | none ↦ count_nodes machines ready total s
    | some name ↦
        let (r, s') = manager.get_node name s in
        count_nodes machines (node_verdict r ready) (add total 1) s'
  ]

  unfoldable pub get_node_status : String → Exec S (Int32 × Int32)
  unfolding count_nodes
  get_node_status name =
      with_client
        (λ client. do
          machines ← client.list_machines name
          (λ s. let (counts, s') = count_nodes machines 0 0 s in (ok counts, s')))
        manager.machine_client

  unfoldable pub machines_look : String → Exec S (Option (Int32 × Int32))
  machines_look name = do
    counts ← get_machine_status name
    pure (if all_ready counts then some counts else none)

  unfoldable pub wait_for_machines_ready : String → Duration → Exec S (Int32 × Int32)
  unfolding machines_look
  wait_for_machines_ready name timeout =
      wait manager.ticker (machines_look name) (msg "timeout waiting for machines to be ready")
        timeout manager.turns

  -- No machine need have a node.
  unfoldable pub nodes_look : String → Exec S (Option (Int32 × Int32))
  nodes_look name = do
    counts ← get_node_status name
    pure (if counts.0 == counts.1 then some counts else none)

  unfoldable pub wait_for_nodes_ready : String → Duration → Exec S (Int32 × Int32)
  unfolding nodes_look
  wait_for_nodes_ready name timeout =
      wait manager.ticker (nodes_look name) (msg "timeout waiting for nodes to be ready") timeout
        manager.turns

  unfoldable pub check_machines_ready : String → Exec S (Bool × Int32 × Int32)
  check_machines_ready name = do
    counts ← get_machine_status name
    pure (all_ready counts, counts.0, counts.1)

  unfoldable pub check_nodes_ready : String → Exec S (Bool × Int32 × Int32)
  check_nodes_ready name = do
    counts ← get_node_status name
    pure (all_ready counts, counts.0, counts.1)

  unfoldable pub check_machines_deleted : String → Exec S (Bool × Int32)
  check_machines_deleted name =
      with_client
        (λ client. do
          machines ← wrap_error (list_failed name) (client.list_machines name)
          pure (wrap (length machines) == 0, wrap (length machines)))
        manager.machine_client

  unfoldable pub remaining_nodes : List Machine → Int32 → S → Int32 × S
  remaining_nodes [] remaining s = (remaining, s)
  remaining_nodes (machine ∷ machines) remaining s = elim machine.node_ref [
    | none ↦ remaining_nodes machines remaining s
    | some name ↦
        let (r, s') = manager.get_node name s in
        remaining_nodes machines (still_there r remaining) s'
  ]

  unfoldable pub nodes_of : List Machine → Exec S (Bool × Int32)
  unfolding remaining_nodes
  nodes_of [] s = (ok (true, 0), s)
  nodes_of (machine ∷ machines) s =
      let (remaining, s') = remaining_nodes (machine ∷ machines) 0 s in
      (ok (remaining == 0, remaining), s')

  unfoldable pub check_nodes_deleted_for_machines : String → Exec S (Bool × Int32)
  unfolding nodes_of
  check_nodes_deleted_for_machines name =
      with_client
        (λ client. do
          machines ← wrap_error (list_failed name) (client.list_machines name)
          nodes_of machines)
        manager.machine_client

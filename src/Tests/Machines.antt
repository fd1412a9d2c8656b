-- ===== src/Tests/Machines.antt =====
-- Worker machines on a concrete cluster.
use openshift_vsphere_migrat.Base.{
  ℕ, ◌+◌, String, Bool, true, false, ◌≡◌, refl, List, [], ◌∷◌, Option, none, some, msg, errorf,
  Result, ok, err, if◌then◌else◌, ◌==◌, nat_eq, string_eq, ltb, arith,
}
use openshift_vsphere_migrat.Base.Exec.{Exec, pure, raise}
use openshift_vsphere_migrat.Api.{Migration}
use openshift_vsphere_migrat.Machines.Json.{Json, Fields, JsonCodec, get, text_at}
use openshift_vsphere_migrat.Machines.Types.{
  Machine, MachineSet, Node, MachineClient, MachineManager,
}
use openshift_vsphere_migrat.Machines.Readiness.{
  wait_for_machines_ready, check_nodes_deleted_for_machines,
}
use openshift_vsphere_migrat.Machines.Sets.{create_worker_machine_set}
use openshift_vsphere_migrat.Machines.Counting.{ShowsReady, wait_for_machines_ready-ShowsReady}
use openshift_vsphere_migrat.Machines.Deletion.{check_nodes_deleted_for_machines-count}
use openshift_vsphere_migrat.Machines.Targets.{
  KeepsServer, AsksForTarget, create_worker_machine_set-targets,
}
use openshift_vsphere_migrat.Tests.World.{fresh, domain}

-- The world is the time.
abbrev machine : String → String → Machine
machine name phase = record { name = name; node_ref = some name; phase = some phase }

-- The second machine runs from the third second on.
abbrev machines_at : ℕ → List Machine
machines_at s =
    machine "worker-0" "Running"
    ∷ machine "worker-1" (if ltb s 3 then "Provisioned" else "Running")
    ∷ []

abbrev unavailable : {A : Type 0} → Exec ℕ A
unavailable = raise (errorf (msg "unavailable"))

abbrev client : MachineClient ℕ
client = record {
  list_machine_sets = pure [];
  get_machine_set = λ name. unavailable;
  create_machine_set = pure;
  delete_machine_set = λ name. pure tt;
  patch_machine_set = λ name patch. pure tt;
  list_machines = λ name s. (ok (machines_at s), s);
}

abbrev node_or_error : Bool → String → Exec ℕ Node
node_or_error true name = unavailable
node_or_error false name = pure (record { name = name; conditions = ("Ready", "True") ∷ [] })

abbrev nodes : String → Exec ℕ Node
nodes name = node_or_error (name == "worker-0") name

lookups_read : (b : Bool) (name : String) → (node_or_error b name 0).1 ≡ 0
lookups_read true name = refl
lookups_read false name = refl

abbrev pub found : Option String → Result String
found none = err (errorf (msg "no server"))
found (some server) = ok server

-- A codec that keeps the server of the workspace and nothing else.
abbrev pub codec : JsonCodec
codec = record {
  unmarshal = λ raw. ok (
      Fields.field "workspace" (Json.object (Fields.field "server" (Json.text raw) Fields.empty))
        Fields.empty);
  marshal = λ fs. found (text_at "workspace" "server" fs);
}

abbrev manager : MachineManager ℕ
manager = record {
  get_node = nodes;
  machine_client = some client;
  dynamic_client = none;
  codec = codec;
  ticker = record { now = λ s. s; tick = λ s. s + 1 };
  turns = 10;
}

wait_for_machines_ready-ShowsReady_example :
    ShowsReady manager client "workers" (wait_for_machines_ready manager "workers" 5 0)
wait_for_machines_ready-ShowsReady_example =
    wait_for_machines_ready-ShowsReady manager client "workers" refl (λ s. omega arith) 5 0

check_nodes_deleted_for_machines-count_example :
    check_nodes_deleted_for_machines manager "workers" 0 ≡ (ok (false, 1), 0)
check_nodes_deleted_for_machines-count_example =
    check_nodes_deleted_for_machines-count manager 0 client refl
      (λ name. lookups_read (name == "worker-0") name) "workers" 0 (machines_at 0) refl

keeps : KeepsServer codec
unfolding text_at get
keeps fs raw e = (_, refl, same (text_at "workspace" "server" fs) e)
  where
    same : (o : Option String) → found o ≡ ok raw → some raw ≡ o
    same none e = cc
    same (some server) e = cc

abbrev migration : Migration
migration =
    let target = record domain { topology = record domain.topology { template = "rhcos" } } in
    record fresh { spec = record fresh.spec { failure_domains = target ∷ [] } }

abbrev pub template : MachineSet
template = record {
  name = "old";
  resource_version = "1";
  uid = "u";
  creation_timestamp = none;
  replicas = some 2;
  annotations = [];
  labels = [];
  selector_labels = [];
  template_labels = [];
  provider_spec = some "vcenter-1";
}

create_worker_machine_set-targets_example :
    AsksForTarget manager client keeps "new" migration template "cluster-x"
      (create_worker_machine_set manager "new" migration template "cluster-x")
      0
create_worker_machine_set-targets_example =
    create_worker_machine_set-targets manager client keeps "new" migration template "cluster-x" refl
      0

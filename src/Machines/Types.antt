-- ===== src/Machines/Types.antt =====
-- The objects and the clients of pkg/openshift/machines.go.
use openshift_vsphere_migrat.Base.{
  ℕ, String, List, Option, none, some, Message, msg, GoError, errorf, Result,
}
use openshift_vsphere_migrat.Base.Exec.{Exec, raise}
use openshift_vsphere_migrat.Base.Int32.{Int32}
use openshift_vsphere_migrat.Api.{Time}
use openshift_vsphere_migrat.Ticker.{Ticker}
use openshift_vsphere_migrat.Machines.Json.{Json, Fields, JsonCodec}

-- `provider_spec` is the raw JSON, `none` where the value or its bytes are nil.
pub record MachineSet : Type 0 where
  pub name : String
  pub resource_version : String
  pub uid : String
  pub creation_timestamp : Option Time
  pub replicas : Option Int32
  pub annotations : List (String × String)
  pub labels : List (String × String)
  pub selector_labels : List (String × String)
  pub template_labels : List (String × String)
  pub provider_spec : Option String

-- `node_ref` is the name of the node.
pub record Machine : Type 0 where
  pub name : String
  pub node_ref : Option String
  pub phase : Option String

-- Conditions by type and status.
pub record Node : Type 0 where
  pub name : String
  pub conditions : List (String × String)

-- The calls on openshift-machine-api. `list_machines` selects by the label of the machine set.
pub record MachineClient (S : Type 0) : Type 0 where
  pub list_machine_sets : Exec S (List MachineSet)
  pub get_machine_set : String → Exec S MachineSet
  pub create_machine_set : MachineSet → Exec S MachineSet
  pub delete_machine_set : String → Exec S (Unit {0})
  pub patch_machine_set : String → Message → Exec S (Unit {0})
  pub list_machines : String → Exec S (List Machine)

pub record CpmsStatus : Type 0 where
  pub replicas : ℕ
  pub updated_replicas : ℕ
  pub ready_replicas : ℕ

-- A ControlPlaneMachineSet by what the accessors of `unstructured` find at the paths that the code
-- names: a value, nothing, or an error where a value of another type stands. The three counts of the
-- status are 0 where they are missing.
pub record Cpms : Type 0 where
  pub name : String
  pub namespace : String
  pub resource_version : String
  pub uid : String
  pub generation : ℕ
  pub failure_domains : Result (Option (List Json))
  pub provider_spec : Result (Option Fields)
  pub state : Result (Option String)
  pub status : Result (Option CpmsStatus)
  pub observed_generation : Result (Option ℕ)

-- The calls on the ControlPlaneMachineSets of openshift-machine-api, by name.
pub record CpmsClient (S : Type 0) : Type 0 where
  pub get : String → Exec S Cpms
  pub update : Cpms → Exec S Cpms
  pub create : Cpms → Exec S Cpms
  pub delete : String → Exec S (Unit {0})

-- A client is `none` where the manager was made without it. After `turns` ticks the context is done.
pub record MachineManager (S : Type 0) : Type 0 where
  pub get_node : String → Exec S Node
  pub machine_client : Option (MachineClient S)
  pub dynamic_client : Option (CpmsClient S)
  pub codec : JsonCodec
  pub ticker : Ticker S
  pub turns : ℕ

abbrev pub no_machine_client : GoError
no_machine_client = errorf (msg "machine client not initialized")

abbrev pub no_dynamic_client : GoError
no_dynamic_client = errorf (msg "dynamic client not initialized")

abbrev pub machine_api_namespace : String
machine_api_namespace = "openshift-machine-api"

abbrev pub cpms_name : String
cpms_name = "cluster"

-- `if m.machineClient == nil`
abbrev pub with_client :
    {S A : Type 0} → (MachineClient S → Exec S A) → Option (MachineClient S) → Exec S A
with_client f none = raise no_machine_client
with_client f (some client) = f client

-- `if m.dynamicClient == nil`
abbrev pub with_dynamic :
    {S A : Type 0} → (CpmsClient S → Exec S A) → Option (CpmsClient S) → Exec S A
with_dynamic f none = raise no_dynamic_client
with_dynamic f (some client) = f client

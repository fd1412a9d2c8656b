-- ===== src/Api/Request.antt =====
-- The spec of pkg/apis/migration/v1alpha1/types.go: what the user asks for. The failure domains
-- are OpenShift's `VSpherePlatformFailureDomainSpec`, of which all fields the code reads are kept.
use openshift_vsphere_migrat.Base.{String, Bool, true, false, List}
use openshift_vsphere_migrat.Base.Int32.{Int32}
use openshift_vsphere_migrat.Api.Names.{MigrationState, ApprovalMode}

pub record SecretReference : Type 0 where
  pub name : String
  pub namespace : String

pub record Topology : Type 0 where
  pub datacenter : String
  pub compute_cluster : String
  pub networks : List String
  pub datastore : String
  pub resource_pool : String
  pub folder : String
  pub template : String

pub record FailureDomain : Type 0 where
  pub name : String
  pub region : String
  pub zone : String
  pub server : String
  pub topology : Topology

pub record MachineSetConfig : Type 0 where
  pub replicas : Int32
  pub failure_domain : String

pub record ControlPlaneMachineSetConfig : Type 0 where
  pub failure_domain : String

pub record Spec : Type 0 where
  pub state : MigrationState
  pub approval_mode : ApprovalMode
  pub target_vcenter_credentials_secret : SecretReference
  pub failure_domains : List FailureDomain
  pub machine_set_config : MachineSetConfig
  pub control_plane_machine_set_config : ControlPlaneMachineSetConfig
  pub rollback_on_failure : Bool

-- `state == MigrationStateRunning`
abbrev pub is_running : MigrationState → Bool
is_running MigrationState.running = true
is_running _ = false

-- `mode == ApprovalModeManual`
abbrev pub is_manual : ApprovalMode → Bool
is_manual ApprovalMode.manual = true
is_manual _ = false

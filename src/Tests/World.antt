-- ===== src/Tests/World.antt =====
-- A small cluster in memory: a clock, the rollbacks that ran, the stored object, the replicas of
-- the version operator's deployment, and one PersistentVolume.
use openshift_vsphere_migrat.Base.{
  ℕ, String, Bool, true, false, List, [], ◌∷◌, ◌++◌, Option, none, some, msg, errorf, api,
  deadline_exceeded, Reason, Result, ok, err, string_eq,
}
use openshift_vsphere_migrat.Base.Exec.{Exec, pure, raise}
use openshift_vsphere_migrat.Base.Int32.{Int32}
use openshift_vsphere_migrat.Api.{
  MigrationPhase, no_phase, MigrationState, ApprovalMode, PhaseStatus, Spec, FailureDomain,
  Migration, artifacts_of,
}
use openshift_vsphere_migrat.Kube.{
  Workload, WorkloadClient, PersistentVolume, PersistentVolumeClaim, Client,
}
use openshift_vsphere_migrat.Executor.{PhaseResult}
use openshift_vsphere_migrat.Reconciler.Phases.{PhaseBody, PhaseBodies}

pub record World : Type 0 where
  pub clock : ℕ
  pub trace : List MigrationPhase
  pub stored : Option Migration
  pub cvo : Option Int32
  pub pv : PersistentVolume

abbrev workload : String → Option Int32 → Workload
workload name replicas = record {
  name = name;
  namespace = "app";
  replicas = replicas;
  volumes = [];
  volume_claim_templates = [];
  owner_kinds = [];
  ready_replicas = 0;
}

abbrev unavailable : {A : Type 0} → Exec World A
unavailable = raise (errorf (msg "unavailable"))

abbrev pub missing : {A : Type 0} → Exec World A
missing = raise (api Reason.not_found "not found")

abbrev cvo_client : WorkloadClient World
cvo_client = record {
  get = λ namespace name s. (ok (workload name s.cvo), s);
  list = λ namespace. pure [];
  update = λ namespace w s. (ok tt, record s { cvo = w.replicas });
}

abbrev no_workloads : WorkloadClient World
no_workloads = record {
  get = λ namespace name. missing;
  list = λ namespace. pure [];
  update = λ namespace w. missing;
}

abbrev once : Result Bool → Exec World (Unit {0})
once (ok true) = pure tt
once (ok false) = raise deadline_exceeded
once (err e) = raise e

abbrev pub claim : PersistentVolumeClaim
claim = record {
  name = "data";
  namespace = "app";
  labels = [];
  annotations = [];
  access_modes = [];
  resources = "10Gi";
  storage_class_name = some "thin-csi";
  volume_name = "pv-1";
  phase = "Bound";
}

abbrev pub client : Client World
client = record {
  now = λ s. s.clock;
  deployments = cvo_client;
  stateful_sets = no_workloads;
  replica_sets = no_workloads;
  get_pv = λ name s. (ok s.pv, s);
  list_pvs = λ s. (ok (s.pv ∷ []), s);
  update_pv = λ pv s. (ok tt, record s { pv = pv });
  get_pvc = λ namespace name. pure claim;
  create_pvc = λ namespace pvc. pure tt;
  delete_pvc = λ namespace name. pure tt;
  list_pods = λ namespace. pure [];
  delete_pod = λ namespace name. pure tt;
  list_volume_attachments = pure [];
  get_volume_attachment = λ name. missing;
  update_volume_attachment = λ va. pure tt;
  poll = λ interval timeout look s. let (r, s') = look s in once r s';
}

abbrev result_of : PhaseStatus → PhaseResult
result_of status = record {
  status = status;
  message = msg "done";
  progress = 100;
  logs = [];
  requeue_after = 0;
}

abbrev pub succeeding : MigrationPhase → PhaseBody World
succeeding phase = record {
  validate = λ m. pure tt;
  execute = λ m s. (result_of PhaseStatus.completed, none, artifacts_of m, s);
  rollback = λ m s. (none, artifacts_of m, record s { trace = s.trace ++ phase ∷ [] });
}

abbrev failing : MigrationPhase → PhaseBody World
failing phase = record {
  validate = λ m. pure tt;
  execute =
      λ m s. (result_of PhaseStatus.failed, some (errorf (msg "no space")), artifacts_of m, s);
  rollback = λ m s.
      (some (errorf (msg "stuck")), artifacts_of m, record s { trace = s.trace ++ phase ∷ [] });
}

-- Every phase succeeds but the first, whose body is given.
abbrev pub bodies_with : PhaseBody World → PhaseBodies World
bodies_with first = record {
  preflight_body = first;
  backup_body = succeeding MigrationPhase.backup;
  disable_cvo_body = succeeding MigrationPhase.disable_cvo;
  update_secrets_body = succeeding MigrationPhase.update_secrets;
  create_tags_body = succeeding MigrationPhase.create_tags;
  create_folder_body = succeeding MigrationPhase.create_folder;
  delete_cpms_body = succeeding MigrationPhase.delete_cpms;
  update_infrastructure_body = succeeding MigrationPhase.update_infrastructure;
  update_config_body = succeeding MigrationPhase.update_config;
  restart_pods_body = succeeding MigrationPhase.restart_pods;
  monitor_health_body = succeeding MigrationPhase.monitor_health;
  create_workers_body = succeeding MigrationPhase.create_workers;
  recreate_cpms_body = succeeding MigrationPhase.recreate_cpms;
  migrate_csi_volumes_body = succeeding MigrationPhase.migrate_csi_volumes;
  scale_old_machines_body = succeeding MigrationPhase.scale_old_machines;
  cleanup_body = succeeding MigrationPhase.cleanup;
  verify_body = succeeding MigrationPhase.verify;
}

abbrev pub bodies : PhaseBodies World
bodies = bodies_with (succeeding MigrationPhase.preflight)

abbrev pub broken_bodies : PhaseBodies World
broken_bodies = bodies_with (failing MigrationPhase.preflight)

abbrev pub domain : FailureDomain
domain = record {
  name = "target";
  region = "east";
  zone = "a";
  server = "vcenter-2";
  topology = record {
    datacenter = "dc";
    compute_cluster = "cluster";
    networks = [];
    datastore = "ds";
    resource_pool = "pool";
    folder = "";
    template = "";
  };
}

abbrev spec_of : MigrationState → ApprovalMode → Spec
spec_of state mode = record {
  state = state;
  approval_mode = mode;
  target_vcenter_credentials_secret = record { name = "creds"; namespace = "" };
  failure_domains = domain ∷ [];
  machine_set_config = record { replicas = 3; failure_domain = "target" };
  control_plane_machine_set_config = record { failure_domain = "target" };
  rollback_on_failure = true;
}

abbrev pub fresh_in : MigrationState → ApprovalMode → Migration
fresh_in state mode = record {
  name = "migration";
  namespace = "openshift-config";
  generation = 1;
  spec = spec_of state mode;
  status = record {
    phase = no_phase;
    conditions = [];
    phase_history = [];
    current_phase_state = none;
    backup_manifests = [];
    start_time = none;
    completion_time = none;
    csi_volume_migration = none;
  };
}

abbrev pub fresh : Migration
fresh = fresh_in MigrationState.running ApprovalMode.automatic

abbrev pub manual : Migration
manual = fresh_in MigrationState.running ApprovalMode.manual

abbrev pub world : World
world = record {
  clock = 1000;
  trace = [];
  stored = some fresh;
  cvo = some 0;
  pv = record {
    name = "pv-1";
    deletion_timestamp = none;
    csi = some (record {
      driver = "csi.vsphere.vmware.com";
      volume_handle = "file://fcd-1";
      volume_attributes = [];
    });
    capacity = some 10;
    storage_class_name = "thin-csi";
    access_modes = [];
    reclaim_policy = "Delete";
    claim_ref = some (record { namespace = "app"; name = "data" });
    phase = "Bound";
  };
}

-- ===== src/Tests/Phases.antt =====
-- The phases on a cluster with one old machine set and a control plane.
use openshift_vsphere_migrat.Base.{
  ◌+◌, true, false, ◌≡◌, refl, List, [], ◌∷◌, Option, none, some, msg, errorf, GoError, ok, err,
  string_eq, nat_eq,
}
use openshift_vsphere_migrat.Base.Exec.{pure, raise, ◌>>=◌}
use openshift_vsphere_migrat.Api.{
  PhaseStatus, PhaseState, scale_old_machines, Migration, artifacts_of, with_artifacts,
}
use openshift_vsphere_migrat.Executor.{resumes}
use openshift_vsphere_migrat.Ticker.{wait, await, after_look}
use openshift_vsphere_migrat.Infrastructure.{VcenterSpec, get, get_infrastructure_id}
use openshift_vsphere_migrat.Machines.Json.{Fields, get as get_field}
use openshift_vsphere_migrat.Machines.Types.{MachineSet, MachineClient, Cpms, CpmsClient}
use openshift_vsphere_migrat.Machines.ControlPlane.{
  wait_for_cpms_inactive, inactive_look, wait_with, update_cpms_failure_domain, activated,
  rename_first, is_cpms_generation_observed, check_control_plane_rollout_status, rollout_of,
}
use openshift_vsphere_migrat.Backups.{get_backup}
use openshift_vsphere_migrat.Operators.{OperatorClient, ClusterOperator}
use openshift_vsphere_migrat.Operators.Verdict.{all_well, last_says}
use openshift_vsphere_migrat.Phases.Flow.{run}
use openshift_vsphere_migrat.Phases.Managers.{PhaseExecutor}
use openshift_vsphere_migrat.Phases.Backup as Backup
use openshift_vsphere_migrat.Phases.Backup.Coverage.{cpms_not_restored}
use openshift_vsphere_migrat.Phases.DeleteCpms.{delete_cpms_body}
use openshift_vsphere_migrat.Phases.RecreateCpms as RecreateCpms
use openshift_vsphere_migrat.Phases.RecreateCpms.Unmonitored.{first_execution-completed}
use openshift_vsphere_migrat.Phases.ScaleOldMachines as ScaleOldMachines
use openshift_vsphere_migrat.Phases.MonitorHealth as MonitorHealth
use openshift_vsphere_migrat.Phases.MonitorHealth.Healthy.{execute-all_well}
use openshift_vsphere_migrat.Tests.World.{World, world, client, missing, fresh}
use openshift_vsphere_migrat.Tests.Infrastructure.{infrastructure, as_stored}
use openshift_vsphere_migrat.Tests.Secrets as Secrets
use openshift_vsphere_migrat.Tests.Machines as Machines
use openshift_vsphere_migrat.Tests.Backups as Backups

abbrev old : MachineSet
old = record Machines.template { replicas = some 0 }

-- Its machines cannot be listed.
abbrev machines : MachineClient World
machines = record {
  list_machine_sets = pure (old ∷ []);
  get_machine_set = λ name. missing;
  create_machine_set = pure;
  delete_machine_set = λ name. pure tt;
  patch_machine_set = λ name patch. pure tt;
  list_machines = λ name. raise (errorf (msg "unavailable"));
}

abbrev control_plane : Cpms
control_plane = record {
  name = "cluster";
  namespace = "openshift-machine-api";
  resource_version = "1";
  uid = "u";
  generation = 2;
  failure_domains = ok (some []);
  provider_spec = ok (some Fields.empty);
  state = ok (some "Inactive");
  status = ok (some (record { replicas = 3; updated_replicas = 3; ready_replicas = 3 }));
  observed_generation = ok (some 2);
}

abbrev cpms : CpmsClient World
cpms = record {
  get = λ name. pure control_plane;
  update = pure;
  create = pure;
  delete = λ name. pure tt;
}

abbrev executor : PhaseExecutor World
executor = record {
  kube_client = client;
  config_map = λ namespace name. pure Backups.object;
  backup_codec = Backups.codec;
  restore_manager = record { client = none; codec = Backups.codec; pause = λ s. s };
  infra_manager = record {
    client = record { get = λ name. pure infrastructure; update = pure };
    apiextensions_client = none;
    codec = record {
      marshal = λ c. err (errorf (msg "no"));
      unmarshal = λ t. err (errorf (msg "no"));
    };
    range = as_stored;
  };
  secret_manager = record {
    get = λ namespace name. pure Secrets.stored;
    update = λ namespace. pure;
  };
  machine_manager = record {
    get_node = λ name. missing;
    machine_client = some machines;
    dynamic_client = some cpms;
    codec = Machines.codec;
    ticker = record { now = λ s. s.clock; tick = λ s. record s { clock = s.clock + 10000000000 } };
    turns = 5;
  };
  infrastructure_object = λ i. Backups.object;
  secret_object = λ s. Backups.object;
  share = λ ready total scale. 0;
}

cpms_not_restored_example :
    let m' = with_artifacts fresh (run (Backup.execute executor) fresh world).2 in
    ((delete_cpms_body executor).rollback m' world ≡ (none, artifacts_of m', world))
    × ((e : GoError) × ((RecreateCpms.recreate_cpms_body executor).rollback m' world
          ≡ (some e, artifacts_of m', world)))
unfolding get_backup
cpms_not_restored_example = cpms_not_restored executor fresh (_, refl) world world

-- A phase that is running since the beginning.
abbrev resumed : Migration
resumed =
    let state : PhaseState = record {
      name = scale_old_machines;
      status = PhaseStatus.running;
      progress = 10;
      message = [];
      requires_approval = false;
      approved = false;
      start_time = some 0;
      last_heartbeat = none;
    } in
    record fresh { status = record fresh.status { current_phase_state = some state } }

abbrev source : VcenterSpec
source = record { server = "vcenter-1"; datacenters = "dc" ∷ [] }

abbrev later : World
later = record world { clock = world.clock + 10000000000 }

first_execution-completed_example :
    let (r, e, a, t) = run (RecreateCpms.execute executor fresh) fresh world in
    ◌≡◌ {A = PhaseStatus × Option GoError × World}
      (r.status, e, t)
      (PhaseStatus.completed, none, later)
unfolding resumes get_infrastructure_id get wait_for_cpms_inactive inactive_look wait_with wait
    await after_look update_cpms_failure_domain activated rename_first is_cpms_generation_observed
    check_control_plane_rollout_status rollout_of ◌>>=◌
first_execution-completed_example =
    first_execution-completed executor fresh "cluster-x" world later later later (ok true) 3 3 3
      later later refl refl refl refl refl refl refl refl

abbrev operators : List ClusterOperator
operators =
    record {
      name = "ingress";
      conditions = record { kind = "Available"; status = "True"; message = "" } ∷ [];
    }
    ∷ record {
      name = "machine-config";
      conditions = record { kind = "Degraded"; status = "True"; message = "two vCenters" } ∷ [];
    }
    ∷ []

abbrev operator_client : OperatorClient World
operator_client = record {
  list = pure operators;
  get = λ name. missing;
  ticker = record { now = λ s. s.clock; tick = λ s. s };
}

execute-all_well_example :
    let (r, e, a, t) = run (MonitorHealth.execute client.now operator_client 0) fresh world in
    ◌≡◌ {A = PhaseStatus × Option GoError × World}
      (r.status, e, t)
      (PhaseStatus.completed, none, world)
unfolding all_well last_says
execute-all_well_example =
    execute-all_well client.now operator_client 0 fresh operators world world refl

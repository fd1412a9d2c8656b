-- ===== src/Tests/Volumes.antt =====
-- The CSI volume migration, the waiting loops and the backups on the concrete cluster.
use openshift_vsphere_migrat.Base.{
  ◌+◌, String, ◌≡◌, refl, ◌&&◌, ◌==◌, inl, inr, Bool, true, false, not, List, [], ◌∷◌, keep, none,
  some, msg, errorf, ok, err, if◌then◌else◌, ltb, Bool-cases, arith, string_eq,
}
use openshift_vsphere_migrat.Base.Exec.{pure, raise, ◌>>=◌}
use openshift_vsphere_migrat.Api.{PvStatus, PvMigrationState, CsiVolumeMigrationStatus, Migration}
use openshift_vsphere_migrat.Volumes.{PvcBackup, Codec, backup_of}
use openshift_vsphere_migrat.Vcenter.{
  Vm, Device, Backing, Vcenter, backs, is_fcd_attached, is_fcd_attached_to_vm, scan_vms,
  wait_for_fcd_detached,
}
use openshift_vsphere_migrat.Vcenter.Waiting.{
  ShowsDetached, KeepsTime, wait_for_fcd_detached-ShowsDetached, wait_for_fcd_detached-ends,
}
use openshift_vsphere_migrat.CsiMigration.Environment.{Environment}
use openshift_vsphere_migrat.CsiMigration.Pipeline.{Progress, is_complete, process_volume}
use openshift_vsphere_migrat.CsiMigration.Summary.{migrate_volumes}
use openshift_vsphere_migrat.CsiMigration.Body.{roll_back_volumes}
use openshift_vsphere_migrat.CsiMigration.Settled.{
  Settled, process_volume-Settled, process_volume-still,
}
use openshift_vsphere_migrat.CsiMigration.Through.{IsTallied, migrate_volumes-IsTallied}
use openshift_vsphere_migrat.CsiMigration.Relocate.{relocate_volume}
use openshift_vsphere_migrat.CsiMigration.Refusal.{
  Refused, IsHeld, Moves, with_moves, relocate_volume-Refused,
}
use openshift_vsphere_migrat.Attachments.{is_volume_attached, get_volume_attachment_for_pv}
use openshift_vsphere_migrat.CsiMigration.Rollback.{roll_back_volumes-keep}
use openshift_vsphere_migrat.Tests.World.{World, world, client, claim, domain, fresh}

abbrev worker : Vm
worker = record { reference = "vm-1"; name = "worker-0" }

-- One worker holds the disk for the first seven seconds.
abbrev source : Vcenter World
source = record {
  now = λ s. s.clock;
  list_virtual_machines_in_folder = λ datacenter folder. pure (worker ∷ []);
  devices = λ vm s. (
    ok (
        if ltb s.clock 7000000000
        then Device.other_device ∷ Device.virtual_disk (Backing.flat_ver2 "fcd-1") ∷ []
        else []),
    s,
  );
}

abbrev pause : World → World
pause s = record s { clock = s.clock + 5000000000 }

abbrev is_nil : {A : Type 0} → List A → Bool
is_nil [] = true
is_nil (x ∷ xs) = false

abbrev is_backup : PvcBackup → Bool
is_backup b =
    b.name == "data"
    && (b.namespace == "app"
        && (b.storage_class_name == "thin-csi"
            && (b.resources == "10Gi"
                && (is_nil b.access_modes && (is_nil b.labels && is_nil b.annotations)))))

-- A codec for the backups of one claim.
abbrev one_claim : Codec
one_claim = record {
  marshal = λ b. if is_backup b then ok "data" else err (errorf (msg "another claim"));
  unmarshal = λ json. ok (backup_of claim);
  encode_to_string = λ json. json;
  decode_string = λ text. ok text;
}

abbrev target_vm : Vm
target_vm = record { reference = "vm-9"; name = "csi-migration" }

abbrev env : Environment World
env = record {
  client = client;
  codec = one_claim;
  source = source;
  turns = 40;
  tick = pause;
  pause = pause;
  sleep = pause;
  get_source_vcenter = pure "vcenter-1";
  get_source_failure_domain = pure domain;
  get_infrastructure_id = pure "infra";
  get_vsphere_client = λ server. pure tt;
  get_vsphere_client_from_migration = λ m server. pure tt;
  logout = λ server s. s;
  get_vcenter_creds_from_secret = λ namespace name server. pure ("user", "password");
  get_server_thumbprint = λ url. pure "AB:CD";
  get_instance_uuid = λ s. "uuid";
  new_source_fcd_manager = pure tt;
  new_target_fcd_manager = pure tt;
  get_fcd_by_id = λ id. pure (record { id = id; name = "disk"; path = "[ds] fcd/disk.vmdk" });
  get_datastore_from_path = λ path. pure "ds";
  attach_disk = λ vm datastore id key unit_number. pure tt;
  detach_disk = λ vm id. pure tt;
  create_dummy_vm = λ config. pure target_vm;
  delete_dummy_vm = λ vm. pure tt;
  get_vm_scsi_controller_key = λ vm. pure 1000;
  get_next_free_unit_number = λ vm key. pure 0;
  relocate_vm = λ vm config. pure tt;
  get_virtual_machine = λ path. pure target_vm;
  new_cns_manager = pure tt;
  query_volume = λ id. pure none;
  register_volume = λ path name url cluster. pure tt;
}

abbrev volume : PvStatus → String → PvMigrationState
volume status name = record {
  pv_name = name;
  pvc_name = "data";
  pvc_namespace = "app";
  source_volume_path = "file://fcd-1";
  source_volume_id = "";
  target_volume_path = "";
  target_volume_id = "";
  dummy_vm_name = "";
  status = status;
  message = [];
  scaled_down_resources = [];
  original_reclaim_policy = "Delete";
  pvc_spec = "";
  workload_type = "";
}

abbrev status : CsiVolumeMigrationStatus
status = record {
  total_volumes = 3;
  migrated_volumes = 1;
  failed_volumes = 0;
  volumes =
      volume PvStatus.complete "pv-0"
      ∷ volume PvStatus.pending "pv-1"
      ∷ volume PvStatus.relocated "pv-2"
      ∷ [];
}

abbrev migrating : Migration
migrating = record fresh { status = record fresh.status { csi_volume_migration = some status } }

abbrev start : Progress World
start = record { migrated = 1; failed = 0; logs = []; world = world }

process_volume-Settled_example :
    Settled start (process_volume env domain fresh (volume PvStatus.pending "pv-1") start)
process_volume-Settled_example =
    process_volume-Settled env domain fresh (volume PvStatus.pending "pv-1") start refl

process_volume-still_example :
    process_volume env domain fresh (volume PvStatus.relocating "pv-3") start
    ≡ (volume PvStatus.relocating "pv-3", start)
process_volume-still_example =
    process_volume-still env domain fresh (volume PvStatus.relocating "pv-3") start refl

status-IsTallied : IsTallied status
status-IsTallied = (refl, refl, refl, omega arith)

migrate_volumes-IsTallied_example : IsTallied (migrate_volumes env domain fresh status [] world).0
migrate_volumes-IsTallied_example =
    migrate_volumes-IsTallied env domain fresh status [] world status-IsTallied

roll_back_volumes-keep_example :
    roll_back_volumes env status.volumes world
    ≡ roll_back_volumes env (keep (λ pv. not (is_complete pv.status)) status.volumes) world
roll_back_volumes-keep_example = roll_back_volumes-keep env status.volumes world

wait_for_fcd_detached-ShowsDetached_example :
    ShowsDetached source pause "dc" "/dc/vm/infra" "fcd-1"
      (wait_for_fcd_detached source pause 40 "dc" "/dc/vm/infra" "fcd-1" 60000000000 world)
wait_for_fcd_detached-ShowsDetached_example =
    wait_for_fcd_detached-ShowsDetached source pause "dc" "/dc/vm/infra" "fcd-1" 40 60000000000
      world

check-clock : (s : World) → (is_fcd_attached source "dc" "/dc/vm/infra" "fcd-1" s).1.clock ≡ s.clock
unfolding is_fcd_attached ◌>>=◌ scan_vms is_fcd_attached_to_vm backs
check-clock s = elim (Bool-cases (ltb s.clock 7000000000)) [ inl e ↦ rw e refl | inr e ↦ rw e refl ]

keeps_time : KeepsTime source pause "dc" "/dc/vm/infra" "fcd-1" 5000000000
keeps_time = (λ s. omega (arith, check-clock s), λ s. omega arith)

wait_for_fcd_detached-ends_example :
    wait_for_fcd_detached source pause (7 + 13) "dc" "/dc/vm/infra" "fcd-1" 60000000000 world
    ≡ wait_for_fcd_detached source pause 13 "dc" "/dc/vm/infra" "fcd-1" 60000000000 world
wait_for_fcd_detached-ends_example =
    wait_for_fcd_detached-ends source pause "dc" "/dc/vm/infra" "fcd-1" 5000000000 keeps_time 13
      60000000000 (omega arith) 7 world

-- A node still holds the volume.
abbrev held_env : Environment World
held_env = record env {
  client = record client {
    list_volume_attachments = pure (
        record {
          name = "va-1";
          finalizers = [];
          deletion_timestamp = none;
          pv_name = some "pv-1";
          node_name = "worker-0";
          attached = true;
          detach_error = none;
        }
        ∷ []);
  };
}

held : IsHeld held_env "pv-1"
unfolding is_volume_attached get_volume_attachment_for_pv ◌>>=◌
held s = ("worker-0", refl)

-- Calls that fail, in place of those that succeed.
abbrev failing_moves : Moves World
failing_moves = (
  λ vm datastore id key unit_number. raise (errorf (msg "no attach")),
  λ vm config. raise (errorf (msg "no move")),
)

relocate_volume-Refused_example :
    Refused PvStatus.pvc_deleted
      (relocate_volume held_env domain fresh (volume PvStatus.pvc_deleted "pv-1", world))
    × (relocate_volume held_env domain fresh (volume PvStatus.pvc_deleted "pv-1", world)
        ≡ relocate_volume
            (with_moves failing_moves held_env)
            domain
            fresh
            (volume PvStatus.pvc_deleted "pv-1", world))
relocate_volume-Refused_example =
    relocate_volume-Refused held_env failing_moves domain fresh (volume PvStatus.pvc_deleted "pv-1")
      world held

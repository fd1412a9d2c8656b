-- ===== src/CsiMigration/Relocate.antt =====
-- `relocateVolume`: a dummy machine carries the disk to the target vCenter.
use Prim.Native.Nat.{min}
use Prim.Native.String.{slice, len}
use openshift_vsphere_migrat.Base.{
  string_eq, nat_eq, String, ◌<>◌, Bool, true, false, List, [], ◌∷◌, msg, lit, errorf, Result, ok,
  err, if◌then◌else◌, ◌==◌, length,
}
use openshift_vsphere_migrat.Base.Exec.{Exec, pure, raise, gets, attempt, ◌>>=◌, ◌>>◌, wrap_error}
use openshift_vsphere_migrat.Api.{PvStatus, PvMigrationState, FailureDomain, Migration}
use openshift_vsphere_migrat.Attachments.{is_volume_attached}
use openshift_vsphere_migrat.Vcenter.{
  Vm, parse_csi_volume_handle, build_csi_volume_handle, wait_for_fcd_detached,
  verify_fcd_not_attached_to_vm,
}
use openshift_vsphere_migrat.CsiMigration.Environment.{
  DummyVmConfig, RelocateConfig, FcdInfo, Environment,
}
use openshift_vsphere_migrat.CsiMigration.Exec.{
  Volume, on_world, deferring, modify, set_status, get_volume,
}
use openshift_vsphere_migrat.CsiMigration.Detach.{folder_path}

-- `fmt.Sprintf("csi-migration-%s-%s", infraID, pvState.PVName[:min(8, len(pvState.PVName))])`.
-- A PV's name is ASCII, as Kubernetes demands.
unfoldable pub dummy_vm_name : String → String → String
dummy_vm_name infra_id pv_name =
    "csi-migration-" <> (infra_id <> ("-" <> slice pv_name 0 (min 8 (len pv_name))))

abbrev dummy_config : String → String → FailureDomain → DummyVmConfig
dummy_config name infra_id fd = record {
  name = name;
  datacenter = fd.topology.datacenter;
  cluster = fd.topology.compute_cluster;
  datastore = fd.topology.datastore;
  folder = folder_path fd.topology.datacenter infra_id;
  resource_pool = fd.topology.resource_pool;
  num_cpus = 1;
  memory_mb = 128;
}

abbrev sdk_url : String → String
sdk_url server = "https://" <> (server <> "/sdk")

abbrev secret_namespace : Migration → String
secret_namespace m =
    let namespace = m.spec.target_vcenter_credentials_secret.namespace in
    if namespace == "" then m.namespace else namespace

abbrev relocate_config : FailureDomain → String → String → String → String → String → RelocateConfig
relocate_config fd infra_id user pass thumbprint uuid = record {
  target_vcenter_url = sdk_url fd.server;
  target_vcenter_user = user;
  target_vcenter_password = pass;
  target_vcenter_thumbprint = thumbprint;
  target_vcenter_instance_uuid = uuid;
  target_datacenter = fd.topology.datacenter;
  target_cluster = fd.topology.compute_cluster;
  target_datastore = fd.topology.datastore;
  target_folder = folder_path fd.topology.datacenter infra_id;
  target_resource_pool = fd.topology.resource_pool;
}

-- The configuration is validated before the vMotion.
abbrev checked_config : {S : Type 0} → RelocateConfig → Exec S RelocateConfig
checked_config config =
    if config.target_vcenter_instance_uuid == ""
    then raise (
        errorf (
          msg
            "FATAL: target vCenter instance UUID is empty - cannot proceed with cross-vCenter vMotion"))
    else if config.target_vcenter_thumbprint == ""
    then raise (
        errorf (
          msg
            "FATAL: target vCenter SSL thumbprint is empty - cannot proceed with cross-vCenter vMotion"))
    else pure config

module _ {S : Type 0} (env : Environment S) where
  -- Defense layer 1. An error of the check does not stop the relocation.
  unfoldable pub layer_1_verdict : Result (Bool × String) → Exec S (Unit {0})
  layer_1_verdict (err e) = pure tt
  layer_1_verdict (ok (false, node)) = pure tt
  layer_1_verdict (ok (true, node)) = raise (
      errorf (
        lit "ABORT: volume still attached per VolumeAttachment (node="
        ∷ lit node
        ∷ lit "), refusing to proceed to protect data"
        ∷ []))

  unfoldable pub defense_layer_1 : String → Exec S (Unit {0})
  unfolding layer_1_verdict
  defense_layer_1 pv_name = do
    r ← attempt (is_volume_attached env.client pv_name)
    layer_1_verdict r

  -- Defense layer 2.
  unfoldable pub defense_layer_2 : String → String → String → Exec S (Unit {0})
  defense_layer_2 datacenter folder id =
      wrap_error (msg "timeout waiting for FCD detachment from worker VM")
        (wait_for_fcd_detached env.source env.pause env.turns datacenter folder id 180000000000)

  verify_all : String → List Vm → Exec S (Unit {0})
  verify_all id [] = pure tt
  verify_all id (vm ∷ vms) =
      wrap_error (msg "Defense Layer 3 FAILED") (verify_fcd_not_attached_to_vm env.source vm id)
      >> verify_all id vms

  layer_3_listed : String → Result (List Vm) → Exec S (Unit {0})
  unfolding verify_all
  layer_3_listed id (err e) = pure tt
  layer_3_listed id (ok vms) = verify_all id vms

  -- Defense layer 3, for a volume whose workloads were scaled down.
  unfoldable pub defense_layer_3 : PvMigrationState → String → String → String → Exec S (Unit {0})
  unfolding layer_3_listed
  defense_layer_3 pv datacenter folder id =
      if length pv.scaled_down_resources == 0 then pure tt else do
        r ← attempt (env.source.list_virtual_machines_in_folder datacenter folder)
        layer_3_listed id r

  -- From the target's credentials to the configuration of the relocation.
  target_config : FailureDomain → Migration → String → Exec S RelocateConfig
  target_config fd m infra_id = do
    creds ← wrap_error (msg "failed to get target credentials") (
        env.get_vcenter_creds_from_secret (secret_namespace m)
          m.spec.target_vcenter_credentials_secret.name fd.server)
    thumbprint ←
        wrap_error (msg "failed to get target vCenter SSL thumbprint")
          (env.get_server_thumbprint (sdk_url fd.server))
    uuid ← gets env.get_instance_uuid
    checked_config (relocate_config fd infra_id creds.0 creds.1 thumbprint uuid)

  -- After the disk is attached to the dummy machine. The detach's error is logged only.
  unfoldable pub move_disk :
      FailureDomain → Migration → String → String → String → Vm → Exec (Volume S) (Unit {0})
  unfolding target_config
  move_disk fd m infra_id name id dummy = do
    set_status PvStatus.relocating
    config ← on_world (target_config fd m infra_id)
    wrap_error (msg "cross-vCenter vMotion failed") (on_world (env.relocate_vm dummy config))
    wrap_error (msg "failed to create target FCD manager") (on_world env.new_target_fcd_manager)
    vm ← wrap_error (msg "failed to find dummy VM on target") (
        on_world
          (env.get_virtual_machine (folder_path fd.topology.datacenter infra_id <> ("/" <> name))))
    on_world (attempt (env.detach_disk vm id))
    modify (λ pv. record pv {
      target_volume_id = id;
      target_volume_path = build_csi_volume_handle id;
      status = PvStatus.relocated;
    })

  -- Once the dummy machine exists: the three layers, then the disk is attached.
  unfoldable pub guard_and_move :
      FailureDomain
      → FailureDomain
      → Migration
      → String
      → String
      → String
      → FcdInfo
      → Vm
      → Exec (Volume S) (Unit {0})
  unfolding move_disk
  guard_and_move source target m infra_id name id info dummy = do
    pv ← get_volume
    key ←
        wrap_error (msg "failed to get SCSI controller")
          (on_world (env.get_vm_scsi_controller_key dummy))
    datastore ←
        wrap_error (msg "failed to get datastore")
          (on_world (env.get_datastore_from_path info.path))
    on_world (defense_layer_1 pv.pv_name)
    on_world (
        defense_layer_2 source.topology.datacenter (folder_path source.topology.datacenter infra_id)
          id)
    on_world (
        defense_layer_3 pv source.topology.datacenter
          (folder_path source.topology.datacenter infra_id) id)
    unit_number ←
        wrap_error (msg "failed to get unit number")
          (on_world (env.get_next_free_unit_number dummy key))
    wrap_error (msg "failed to attach FCD to dummy VM")
        (on_world (env.attach_disk dummy datastore id key unit_number))
    move_disk target m infra_id name id dummy

  unfoldable pub relocate_volume : FailureDomain → Migration → Exec (Volume S) (Unit {0})
  unfolding guard_and_move dummy_vm_name
  relocate_volume target m = do
    pv ← get_volume
    id ←
        wrap_error (msg "failed to parse volume handle")
          (λ v. (parse_csi_volume_handle pv.source_volume_path, v))
    modify (λ pv. record pv { source_volume_id = id })
    source ←
        wrap_error (msg "failed to get source failure domain")
          (on_world env.get_source_failure_domain)
    wrap_error (msg "failed to create source FCD manager") (on_world env.new_source_fcd_manager)
    info ← wrap_error (msg "failed to get FCD info") (on_world (env.get_fcd_by_id id))
    infra_id ←
        wrap_error (msg "failed to get infrastructure ID") (on_world env.get_infrastructure_id)
    let name = dummy_vm_name infra_id pv.pv_name
    modify (λ pv. record pv { dummy_vm_name = name })
    dummy ←
        wrap_error (msg "failed to create dummy VM")
          (on_world (env.create_dummy_vm (dummy_config name infra_id source)))
    deferring (λ s. (env.delete_dummy_vm dummy s).1)
        (guard_and_move source target m infra_id name id info dummy)

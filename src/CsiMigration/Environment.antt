-- ===== src/CsiMigration/Environment.antt =====
-- What the CSI volume phase calls: the API servers, the checks of pkg/vsphere/fcd.go, and the other
-- operations of pkg/vsphere, pkg/openshift/infrastructure.go and pkg/openshift/secrets.go, which
-- only wrap SDK calls and enter here as calls over the world.
use openshift_vsphere_migrat.Base.{ℕ, String, Option}
use openshift_vsphere_migrat.Base.Exec.{Exec}
use openshift_vsphere_migrat.Base.Int32.{Int32}
use openshift_vsphere_migrat.Api.{FailureDomain, Migration}
use openshift_vsphere_migrat.Kube.{Client}
use openshift_vsphere_migrat.Volumes.{Codec}
use openshift_vsphere_migrat.Vcenter.{Vm, Vcenter}

pub record DummyVmConfig : Type 0 where
  pub name : String
  pub datacenter : String
  pub cluster : String
  pub datastore : String
  pub folder : String
  pub resource_pool : String
  pub num_cpus : Int32
  pub memory_mb : ℕ

pub record RelocateConfig : Type 0 where
  pub target_vcenter_url : String
  pub target_vcenter_user : String
  pub target_vcenter_password : String
  pub target_vcenter_thumbprint : String
  pub target_vcenter_instance_uuid : String
  pub target_datacenter : String
  pub target_cluster : String
  pub target_datastore : String
  pub target_folder : String
  pub target_resource_pool : String

pub record FcdInfo : Type 0 where
  pub id : String
  pub name : String
  pub path : String

pub record Environment (S : Type 0) : Type 0 where
  pub client : Client S
  pub codec : Codec
  -- The source vCenter's virtual machines.
  pub source : Vcenter S
  -- The context lives for so many turns of each waiting loop.
  pub turns : ℕ
  -- Waits for the ticker of `WaitForPodsTerminated`, for the poll interval of `WaitForFCDDetached`,
  -- and `time.Sleep` of `ForceDetachVolume`.
  pub tick : S → S
  pub pause : S → S
  pub sleep : S → S
  pub get_source_vcenter : Exec S String
  pub get_source_failure_domain : Exec S FailureDomain
  pub get_infrastructure_id : Exec S String
  pub get_vsphere_client : String → Exec S (Unit {0})
  pub get_vsphere_client_from_migration : Migration → String → Exec S (Unit {0})
  pub logout : String → S → S
  pub get_vcenter_creds_from_secret : String → String → String → Exec S (String × String)
  pub get_server_thumbprint : String → Exec S String
  pub get_instance_uuid : S → String
  -- `NewFCDManager` on the source and on the target.
  pub new_source_fcd_manager : Exec S (Unit {0})
  pub new_target_fcd_manager : Exec S (Unit {0})
  pub get_fcd_by_id : String → Exec S FcdInfo
  pub get_datastore_from_path : String → Exec S String
  -- On the source, a machine, a datastore, a disk, a controller key and a unit number.
  pub attach_disk : Vm → String → String → Int32 → Int32 → Exec S (Unit {0})
  -- On the target.
  pub detach_disk : Vm → String → Exec S (Unit {0})
  pub create_dummy_vm : DummyVmConfig → Exec S Vm
  pub delete_dummy_vm : Vm → Exec S (Unit {0})
  pub get_vm_scsi_controller_key : Vm → Exec S Int32
  pub get_next_free_unit_number : Vm → Int32 → Exec S Int32
  pub relocate_vm : Vm → RelocateConfig → Exec S (Unit {0})
  -- On the target, by its inventory path.
  pub get_virtual_machine : String → Exec S Vm
  pub new_cns_manager : Exec S (Unit {0})
  -- `none` is Go's nil.
  pub query_volume : String → Exec S (Option String)
  pub register_volume : String → String → String → String → Exec S (Unit {0})

-- ===== src/Api/Csi.antt =====
-- The CSI volume migration's status of pkg/apis/migration/v1alpha1/types.go, with the status
-- strings of pkg/controller/phases/migrate_csi_volumes.go.
use openshift_vsphere_migrat.Base.{String, List, Message}
use openshift_vsphere_migrat.Base.Int32.{Int32}

-- The `PVStatus…` constants; `other` is any further string.
pub data PvStatus : Type 0 where
  pending retain_set quiesced pvc_deleted relocating relocated registered : PvStatus
  pv_updated complete failed : PvStatus
  other : String → PvStatus

pub record ScaledResource : Type 0 where
  pub kind : String
  pub name : String
  pub namespace : String
  pub original_replicas : Int32

pub record PvMigrationState : Type 0 where
  pub pv_name : String
  pub pvc_name : String
  pub pvc_namespace : String
  pub source_volume_path : String
  pub source_volume_id : String
  pub target_volume_path : String
  pub target_volume_id : String
  pub dummy_vm_name : String
  pub status : PvStatus
  pub message : Message
  pub scaled_down_resources : List ScaledResource
  pub original_reclaim_policy : String
  pub pvc_spec : String
  pub workload_type : String

pub record CsiVolumeMigrationStatus : Type 0 where
  pub total_volumes : Int32
  pub migrated_volumes : Int32
  pub failed_volumes : Int32
  pub volumes : List PvMigrationState

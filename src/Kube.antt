-- ===== src/Kube.antt =====
-- The API servers that the controller talks to. Their code is not in the repository: the client is
-- a record of calls over an unknown world `S`, and each call may fail and may change the world.
-- The objects carry the fields that the controller reads or writes.
pub mod Objects
pub mod Locking
use openshift_vsphere_migrat.Base.{String, Bool, List}
use openshift_vsphere_migrat.Base.Exec.{Exec}
use openshift_vsphere_migrat.Api.{Time, Duration}
pub use Objects.{
  Workload, CsiSource, ObjectReference, PersistentVolume, PersistentVolumeClaim, Pod,
  VolumeAttachment,
}

-- Deployments, StatefulSets and ReplicaSets of one namespace, by name.
pub record WorkloadClient (S : Type 0) : Type 0 where
  pub get : String → String → Exec S Workload
  pub list : String → Exec S (List Workload)
  pub update : String → Workload → Exec S (Unit {0})

pub record Client (S : Type 0) : Type 0 where
  -- `time.Now()`: two readings with no call between them show one instant.
  pub now : S → Time
  pub deployments : WorkloadClient S
  pub stateful_sets : WorkloadClient S
  pub replica_sets : WorkloadClient S
  pub get_pv : String → Exec S PersistentVolume
  pub list_pvs : Exec S (List PersistentVolume)
  pub update_pv : PersistentVolume → Exec S (Unit {0})
  pub get_pvc : String → String → Exec S PersistentVolumeClaim
  pub create_pvc : String → PersistentVolumeClaim → Exec S (Unit {0})
  pub delete_pvc : String → String → Exec S (Unit {0})
  pub list_pods : String → Exec S (List Pod)
  pub delete_pod : String → String → Exec S (Unit {0})
  pub list_volume_attachments : Exec S (List VolumeAttachment)
  pub get_volume_attachment : String → Exec S VolumeAttachment
  pub update_volume_attachment : VolumeAttachment → Exec S (Unit {0})
  -- `wait.PollUntilContextTimeout` with its interval and its timeout; every caller polls at once.
  pub poll : Duration → Duration → Exec S Bool → Exec S (Unit {0})

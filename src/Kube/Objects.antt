-- ===== src/Kube/Objects.antt =====
-- Kubernetes objects, with the fields that the controller reads or writes. Resource requests are
-- carried along as text, which the code never looks into.
use openshift_vsphere_migrat.Base.{String, Bool, List, Option, ℕ}
use openshift_vsphere_migrat.Base.Int32.{Int32}
use openshift_vsphere_migrat.Api.{Time}

-- A Deployment, a StatefulSet or a ReplicaSet. `volumes` has the claim name of each volume of the
-- pod template that is a claim; `owner_kinds` the kind of each owner reference.
pub record Workload : Type 0 where
  pub name : String
  pub namespace : String
  pub replicas : Option Int32
  pub volumes : List (Option String)
  pub volume_claim_templates : List String
  pub owner_kinds : List String
  pub ready_replicas : Int32

pub record CsiSource : Type 0 where
  pub driver : String
  pub volume_handle : String
  pub volume_attributes : List (String × String)

pub record ObjectReference : Type 0 where
  pub namespace : String
  pub name : String

pub record PersistentVolume : Type 0 where
  pub name : String
  pub deletion_timestamp : Option Time
  pub csi : Option CsiSource
  pub capacity : Option ℕ
  pub storage_class_name : String
  pub access_modes : List String
  pub reclaim_policy : String
  pub claim_ref : Option ObjectReference
  pub phase : String

pub record PersistentVolumeClaim : Type 0 where
  pub name : String
  pub namespace : String
  pub labels : List (String × String)
  pub annotations : List (String × String)
  pub access_modes : List String
  pub resources : String
  pub storage_class_name : Option String
  pub volume_name : String
  pub phase : String

pub record Pod : Type 0 where
  pub name : String
  pub namespace : String
  pub volumes : List (Option String)
  pub phase : String

pub record VolumeAttachment : Type 0 where
  pub name : String
  pub finalizers : List String
  pub deletion_timestamp : Option Time
  pub pv_name : Option String
  pub node_name : String
  pub attached : Bool
  pub detach_error : Option String

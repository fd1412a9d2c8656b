-- ===== src/CsiMigration/Quiesce.antt =====
-- `quiesceVolume` and `identifyWorkloadType`.
use openshift_vsphere_migrat.Base.{
  string_eq, nat_eq, String, Bool, ◌||◌, List, [], ◌∷◌, msg, if◌then◌else◌, ◌==◌, any, length,
}
use openshift_vsphere_migrat.Base.Exec.{Exec, pure, ◌>>=◌, ◌>>◌, wrap_error}
use openshift_vsphere_migrat.Api.{PvStatus, PvMigrationState, ScaledResource}
use openshift_vsphere_migrat.Volumes.{backup_pvc_spec}
use openshift_vsphere_migrat.Workloads.{scale_down_for_pv, wait_for_pods_terminated}
use openshift_vsphere_migrat.CsiMigration.Environment.{Environment}
use openshift_vsphere_migrat.CsiMigration.Exec.{Volume, on_world, modify, set_status, get_volume}

abbrev has_kind : String → ScaledResource → Bool
has_kind kind r = r.kind == kind

abbrev first_kind : List ScaledResource → String
first_kind [] = "Unknown"
first_kind (r ∷ rs) = r.kind

unfoldable pub identify_workload_type : List ScaledResource → String
identify_workload_type rs =
    if any (has_kind "StatefulSet") rs
    then "StatefulSet"
    else if any (has_kind "Deployment") rs
    then "Deployment"
    else if any (has_kind "ReplicaSet") rs
    then "ReplicaSet"
    else first_kind rs

-- The volume has no claim.
abbrev pub is_unclaimed : PvMigrationState → Bool
is_unclaimed pv = pv.pvc_namespace == "" || pv.pvc_name == ""

module _ {S : Type 0} (env : Environment S) where
  backup_claim : String → PvMigrationState → Exec (Volume S) (Unit {0})
  backup_claim workload_type pv = if workload_type == "StatefulSet" then pure tt else do
    spec ←
        wrap_error (msg "failed to backup PVC spec")
          (on_world (backup_pvc_spec env.client env.codec pv.pvc_namespace pv.pvc_name))
    modify (λ pv. record pv { pvc_spec = spec })

  await_pods : List ScaledResource → PvMigrationState → Exec (Volume S) (Unit {0})
  await_pods rs pv =
      if length rs == 0
      then pure tt
      else wrap_error (msg "timeout waiting for pods to terminate") (
          on_world (
            wait_for_pods_terminated env.client env.tick env.turns pv.pvc_namespace pv.pvc_name
              300000000000))

  quiesce_claim : PvMigrationState → Exec (Volume S) (Unit {0})
  unfolding identify_workload_type backup_claim await_pods
  quiesce_claim pv = do
    rs ←
        wrap_error (msg "failed to scale down workloads")
          (on_world (scale_down_for_pv env.client pv.pvc_namespace pv.pvc_name))
    modify
        (λ pv. record pv { scaled_down_resources = rs; workload_type = identify_workload_type rs })
    backup_claim (identify_workload_type rs) pv
    await_pods rs pv
    set_status PvStatus.quiesced

  unfoldable pub quiesce_volume : Exec (Volume S) (Unit {0})
  unfolding quiesce_claim
  quiesce_volume = do
    pv ← get_volume
    if is_unclaimed pv then set_status PvStatus.quiesced else quiesce_claim pv

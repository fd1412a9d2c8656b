-- ===== src/CsiMigration/Restore.antt =====
-- `registerVolume`, `updatePVAndClearClaimRef` and `restorePVCAndWorkloads`.
use openshift_vsphere_migrat.Base.{
  string_eq, nat_eq, String, ◌<>◌, Bool, true, false, Option, some, msg, Result, ok, if◌then◌else◌,
  ◌==◌, length,
}
use openshift_vsphere_migrat.Base.Exec.{Exec, pure, attempt, ◌>>=◌, ◌>>◌, wrap_error}
use openshift_vsphere_migrat.Api.{PvStatus, PvMigrationState, FailureDomain}
use openshift_vsphere_migrat.Volumes.{
  update_pv_volume_handle, clear_pv_claim_ref, restore_pvc, wait_for_pvc_bound,
}
use openshift_vsphere_migrat.Workloads.{restore_workloads}
use openshift_vsphere_migrat.Vcenter.{build_csi_volume_handle}
use openshift_vsphere_migrat.CsiMigration.Environment.{Environment}
use openshift_vsphere_migrat.CsiMigration.Exec.{Volume, on_world, set_status, get_volume}

abbrev is_known : Result (Option String) → Bool
is_known (ok (some v)) = true
is_known _ = false

module _ {S : Type 0} (env : Environment S) where
  register_new : FailureDomain → PvMigrationState → Exec (Volume S) (Unit {0})
  register_new fd pv = do
    infra_id ←
        wrap_error (msg "failed to get infrastructure ID") (on_world env.get_infrastructure_id)
    wrap_error (msg "failed to register volume with CNS") (
        on_world (
          env.register_volume
            ("[" <> (fd.topology.datastore <> ("] fcd/" <> (pv.target_volume_id <> ".vmdk"))))
            pv.pv_name "" infra_id))
    set_status PvStatus.registered

  unfoldable pub register_volume : FailureDomain → Exec (Volume S) (Unit {0})
  unfolding register_new
  register_volume fd = do
    pv ← get_volume
    wrap_error (msg "failed to create CNS manager") (on_world env.new_cns_manager)
    existing ← on_world (attempt (env.query_volume pv.target_volume_id))
    if is_known existing then set_status PvStatus.registered else register_new fd pv

  unfoldable pub update_pv_and_clear_claim_ref : Exec (Volume S) (Unit {0})
  update_pv_and_clear_claim_ref = do
    pv ← get_volume
    wrap_error (msg "failed to update volumeHandle") (
        on_world (
          update_pv_volume_handle env.client pv.pv_name
            (build_csi_volume_handle pv.target_volume_id)))
    wrap_error (msg "failed to clear claimRef")
        (on_world (clear_pv_claim_ref env.client pv.pv_name))
    set_status PvStatus.pv_updated

  recreate_claim : PvMigrationState → Exec (Volume S) (Unit {0})
  recreate_claim pv = do
    wrap_error (msg "failed to restore PVC")
        (on_world (restore_pvc env.client env.codec pv.pvc_spec pv.pv_name))
    wrap_error (msg "timeout waiting for PVC to bind")
        (on_world (wait_for_pvc_bound env.client pv.pvc_namespace pv.pvc_name 120000000000))

  restore_claim : PvMigrationState → Exec (Volume S) (Unit {0})
  unfolding recreate_claim
  restore_claim pv =
      if pv.workload_type == "StatefulSet"
      then pure tt
      else if pv.pvc_spec == ""
      then pure tt
      else recreate_claim pv

  scale_up : PvMigrationState → Exec (Volume S) (Unit {0})
  scale_up pv =
      if length pv.scaled_down_resources == 0
      then pure tt
      else wrap_error (msg "failed to restore workloads")
          (on_world (restore_workloads env.client pv.scaled_down_resources))

  -- `restorePVCAndWorkloads`
  unfoldable pub restore_pvc_and_workloads : Exec (Volume S) (Unit {0})
  unfolding restore_claim scale_up
  restore_pvc_and_workloads = do pv ← get_volume; restore_claim pv; scale_up pv

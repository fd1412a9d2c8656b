-- ===== src/CsiMigration/Detach.antt =====
-- `deletePVC` and `remediateStuckVolumeAttachment`.
use openshift_vsphere_migrat.Base.{
  String, ◌<>◌, msg, GoError, wrapped, Result, ok, err, if◌then◌else◌,
}
use openshift_vsphere_migrat.Base.Exec.{Exec, pure, raise, attempt, ◌>>=◌, ◌>>◌, wrap_error}
use openshift_vsphere_migrat.Api.{PvStatus, PvMigrationState}
use openshift_vsphere_migrat.Volumes.{delete_pvc, wait_for_pvc_deleted}
use openshift_vsphere_migrat.Attachments.{wait_for_volume_detached, force_detach_volume}
use openshift_vsphere_migrat.Vcenter.{parse_csi_volume_handle, wait_for_fcd_detached}
use openshift_vsphere_migrat.CsiMigration.Environment.{Environment}
use openshift_vsphere_migrat.CsiMigration.Exec.{Volume, on_world, set_status, get_volume}
use openshift_vsphere_migrat.CsiMigration.Quiesce.{is_unclaimed}

-- The folder of the cluster's virtual machines.
abbrev pub folder_path : String → String → String
folder_path datacenter infra_id = "/" <> (datacenter <> ("/vm/" <> infra_id))

abbrev after : {S A : Type 0} → (S → S) → Exec S A → Exec S A
after f m s = let (r, s') = m s in (r, f s')

abbrev remediated : {S : Type 0} → GoError → Result (Unit {0}) → Exec S (Unit {0})
remediated e (ok u) = pure tt
remediated e (err f) =
    raise (wrapped (msg "timeout waiting for volume detachment (VolumeAttachment deletion)") e)

module _ {S : Type 0} (env : Environment S) where
  -- The rest of the remediation, once the source vCenter's session is open.
  remediate_connected : String → String → Exec S (Unit {0})
  remediate_connected pv_name id = do
    fd ← wrap_error (msg "failed to get source failure domain") env.get_source_failure_domain
    infra_id ← wrap_error (msg "failed to get infrastructure ID") env.get_infrastructure_id
    wrap_error (msg "failed to create FCD manager") env.new_source_fcd_manager
    wrap_error (msg "volume is still attached at vSphere level, refusing to force-detach") (
        wait_for_fcd_detached env.source env.pause env.turns fd.topology.datacenter
          (folder_path fd.topology.datacenter infra_id) id 60000000000)
    wrap_error (msg "failed to force-detach volume")
        (force_detach_volume env.client env.sleep env.turns pv_name)

  unfoldable pub remediate_stuck_volume_attachment : PvMigrationState → Exec S (Unit {0})
  unfolding remediate_connected
  remediate_stuck_volume_attachment pv = do
    id ←
        wrap_error (msg "failed to parse volume handle")
          (λ s. (parse_csi_volume_handle pv.source_volume_path, s))
    server ← wrap_error (msg "failed to get source vCenter") env.get_source_vcenter
    wrap_error (msg "failed to connect to source vCenter") (env.get_vsphere_client server)
    after (env.logout server) (remediate_connected pv.pv_name id)

  -- What follows the wait for the VolumeAttachment. The remediation's own error is logged only.
  after_wait : PvMigrationState → Result (Unit {0}) → Exec S (Unit {0})
  after_wait pv (ok u) = pure tt
  after_wait pv (err detach_err) = do
    r ← attempt (remediate_stuck_volume_attachment pv)
    remediated detach_err r

  delete_claim : PvMigrationState → Exec (Volume S) (Unit {0})
  unfolding after_wait
  delete_claim pv = do
    wrap_error (msg "failed to delete PVC")
        (on_world (delete_pvc env.client pv.pvc_namespace pv.pvc_name))
    wrap_error (msg "timeout waiting for PVC deletion")
        (on_world (wait_for_pvc_deleted env.client pv.pvc_namespace pv.pvc_name 120000000000))
    r ← on_world (attempt (wait_for_volume_detached env.client pv.pv_name 180000000000))
    on_world (after_wait pv r)
    set_status PvStatus.pvc_deleted

  -- `deletePVC`
  unfoldable pub delete_volume_claim : Exec (Volume S) (Unit {0})
  unfolding delete_claim
  delete_volume_claim = do
    pv ← get_volume
    if is_unclaimed pv then set_status PvStatus.pvc_deleted else delete_claim pv

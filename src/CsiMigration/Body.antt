-- ===== src/CsiMigration/Body.antt =====
-- `Validate` and `Rollback` of the CSI volume phase, and the phase.
use openshift_vsphere_migrat.Base.{
  string_eq, nat_eq, Bool, true, false, not, ◌&&◌, List, [], ◌∷◌, Option, none, some, msg, GoError,
  errorf, if◌then◌else◌, ◌==◌, length,
}
use openshift_vsphere_migrat.Base.Exec.{Exec, pure, raise}
use openshift_vsphere_migrat.Api.{
  PvStatus, PvMigrationState, CsiVolumeMigrationStatus, Migration, Artifacts, artifacts_of,
}
use openshift_vsphere_migrat.Reconciler.Phases.{PhaseBody}
use openshift_vsphere_migrat.Volumes.{update_pv_reclaim_policy, restore_pvc}
use openshift_vsphere_migrat.Workloads.{restore_workloads}
use openshift_vsphere_migrat.CsiMigration.Environment.{Environment}
use openshift_vsphere_migrat.CsiMigration.Pipeline.{is_complete}
use openshift_vsphere_migrat.CsiMigration.Execute.{execute}

-- The statuses whose claim may have been deleted.
abbrev lost_claim : PvStatus → Bool
lost_claim PvStatus.pvc_deleted = true
lost_claim PvStatus.relocating = true
lost_claim PvStatus.relocated = true
lost_claim PvStatus.registered = true
lost_claim PvStatus.pv_updated = true
lost_claim PvStatus.failed = true
lost_claim _ = false

module _ {S : Type 0} (env : Environment S) where
  unfoldable pub validate : Migration → Exec S (Unit {0})
  validate m =
      if length m.spec.failure_domains == 0
      then raise (errorf (msg "no failure domains configured"))
      else pure tt

  -- `Rollback` of one volume. The errors are logged only.
  restore_policy : PvMigrationState → S → S
  restore_policy pv s =
      if pv.original_reclaim_policy == ""
      then s
      else (update_pv_reclaim_policy env.client pv.pv_name pv.original_reclaim_policy s).1

  restore_claim : PvMigrationState → S → S
  restore_claim pv s =
      if not (pv.pvc_spec == "") && lost_claim pv.status
      then (restore_pvc env.client env.codec pv.pvc_spec pv.pv_name s).1
      else s

  restore_scale : PvMigrationState → S → S
  restore_scale pv s =
      if length pv.scaled_down_resources == 0
      then s
      else (restore_workloads env.client pv.scaled_down_resources s).1

  unfoldable pub roll_back_volume : PvMigrationState → S → S
  unfolding restore_policy restore_claim restore_scale
  roll_back_volume pv s =
      if is_complete pv.status then s else restore_scale pv (restore_claim pv (restore_policy pv s))

  unfoldable pub roll_back_volumes : List PvMigrationState → S → S
  unfolding roll_back_volume
  roll_back_volumes [] s = s
  roll_back_volumes (pv ∷ pvs) s = roll_back_volumes pvs (roll_back_volume pv s)

  abbrev volumes_of : Option CsiVolumeMigrationStatus → List PvMigrationState
  volumes_of none = []
  volumes_of (some status) = status.volumes

  -- It returns nil on every path, and writes nothing of the status.
  unfoldable pub rollback : Migration → S → Option GoError × Artifacts × S
  unfolding roll_back_volumes
  rollback m s =
      (none, artifacts_of m, roll_back_volumes (volumes_of m.status.csi_volume_migration) s)

  -- The phase, as `getAllPhases` lists it.
  unfoldable pub csi_body : PhaseBody S
  unfolding execute validate rollback
  csi_body = record { validate = validate; execute = execute env; rollback = rollback }

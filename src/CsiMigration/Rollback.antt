-- ===== src/CsiMigration/Rollback.antt =====
-- `Rollback` of migrate_csi_volumes.go against the volumes that are complete.
use openshift_vsphere_migrat.Base.{◌≡◌, refl, inl, inr, not, List, [], ◌∷◌, Bool-cases, keep}
use openshift_vsphere_migrat.Api.{PvMigrationState}
use openshift_vsphere_migrat.CsiMigration.Environment.{Environment}
use openshift_vsphere_migrat.CsiMigration.Pipeline.{is_complete}
use openshift_vsphere_migrat.CsiMigration.Body.{roll_back_volume, roll_back_volumes}

module _ {S : Type 0} (env : Environment S) where
  -- The rollback of a list of volumes has the effect of the rollback of those that are not
  -- complete.
  pub roll_back_volumes-keep :
      (pvs : List PvMigrationState) (s : S)
      → roll_back_volumes env pvs s
        ≡ roll_back_volumes env (keep (λ pv. not (is_complete pv.status)) pvs) s
  unfolding roll_back_volumes roll_back_volume
  roll_back_volumes-keep [] s = refl
  roll_back_volumes-keep (pv ∷ pvs) s = elim (Bool-cases (is_complete pv.status)) [
    | inl e ↦ rw e (roll_back_volumes-keep pvs s)
    | inr e ↦ rw (e, roll_back_volumes-keep pvs _) (rw e refl)
  ]

-- ===== src/CsiMigration/Ends.antt =====
-- The status in which the operation of each step of migrate_csi_volumes.go leaves its volume.
use openshift_vsphere_migrat.Base.{
  String, ◌≡◌, refl, Bool, true, false, Result, ok, err, if◌then◌else◌,
}
use openshift_vsphere_migrat.Base.Exec.{Exec, continue, ◌>>=◌}
use openshift_vsphere_migrat.Api.{PvStatus, PvMigrationState, FailureDomain, Migration}
use openshift_vsphere_migrat.Vcenter.{Vm}
use openshift_vsphere_migrat.CsiMigration.Environment.{FcdInfo, Environment}
use openshift_vsphere_migrat.CsiMigration.Exec.{Volume, deferring, modify}
use openshift_vsphere_migrat.CsiMigration.Quiesce.{quiesce_volume}
use openshift_vsphere_migrat.CsiMigration.Detach.{delete_volume_claim}
use openshift_vsphere_migrat.CsiMigration.Relocate.{guard_and_move, move_disk, relocate_volume}
use openshift_vsphere_migrat.CsiMigration.Restore.{register_volume, update_pv_and_clear_claim_ref}
use openshift_vsphere_migrat.CsiMigration.Pipeline.{
  retain, retain_step, quiesce_step, delete_step, relocate_step, register_step, update_step,
  restore_step,
}

-- A success leaves the volume in the status.
abbrev pub Ends : {S : Type 0} → PvStatus → Result (Unit {0}) × Volume S → Type 0
Ends x (ok u, (pv, s)) = pv.status ≡ x
Ends x (err e, v) = Unit

-- The operation ends in the status wherever it succeeds.
pub record EndsIn {S : Type 0} (x : PvStatus) (m : Exec (Volume S) (Unit {0})) : Type 0 where
  pub at : (v : Volume S) → Ends x (m v)

module _ {S : Type 0} (x : PvStatus) where
  deferring-result :
      (f : S → S) (r : Result (Unit {0})) (pv : PvMigrationState) (s : S)
      → Ends x (r, (pv, s))
      → Ends x (r, (pv, f s))
  deferring-result f (ok u) pv s h = h
  deferring-result f (err e) pv s h = tt

module _ {S : Type 0} {x : PvStatus} where
  continue-Ends :
      {A : Type 0} (f : A → Exec (Volume S) (Unit {0}))
      → ((a : A) → EndsIn x (f a))
      → (r : Result A) (v : Volume S) → Ends x (continue r f v)
  continue-Ends f h (ok a) v = (h a).at v
  continue-Ends f h (err e) v = tt

  EndsIn-bind :
      {A : Type 0} (m : Exec (Volume S) A) (f : A → Exec (Volume S) (Unit {0}))
      → ((a : A) → EndsIn x (f a))
      → EndsIn x (m >>= f)
  unfolding ◌>>=◌
  EndsIn-bind m f h = record { at = λ v. let (r, v') = m v in continue-Ends f h r v' }

  EndsIn-if :
      (b : Bool) (m n : Exec (Volume S) (Unit {0}))
      → EndsIn x m
      → EndsIn x n
      → EndsIn x (if b then m else n)
  EndsIn-if true m n f g = f
  EndsIn-if false m n f g = g

  EndsIn-modify :
      (f : PvMigrationState → PvMigrationState)
      → ((pv : PvMigrationState) → (f pv).status ≡ x)
      → EndsIn x (modify {S = S} f)
  unfolding modify
  EndsIn-modify f h = record { at = λ v. h v.0 }

  EndsIn-deferring :
      (f : S → S) (m : Exec (Volume S) (Unit {0})) → EndsIn x m → EndsIn x (deferring f m)
  unfolding deferring
  EndsIn-deferring f m h = record {
    at = λ v. let (r, (pv, s)) = m v in deferring-result x f r pv s (h.at v);
  }

module _ {S : Type 0} (env : Environment S) where
  pub retain_step-EndsIn : EndsIn PvStatus.retain_set (retain_step env).operation
  unfolding retain_step retain
  retain_step-EndsIn = EndsIn-bind _ _ λ pv. EndsIn-bind _ _ λ policy. EndsIn-modify _ (λ pv. refl)

  pub quiesce_step-EndsIn : EndsIn PvStatus.quiesced (quiesce_step env).operation
  unfolding quiesce_step quiesce_volume
  quiesce_step-EndsIn = EndsIn-bind _ _ λ pv. EndsIn-if _ _ _ (EndsIn-modify _ (λ pv. refl)) (
      EndsIn-bind _ _ λ rs.
        EndsIn-bind _ _ λ _. EndsIn-bind _ _ λ _. EndsIn-bind _ _ λ _. EndsIn-modify _ (λ pv. refl))

  pub delete_step-EndsIn : EndsIn PvStatus.pvc_deleted (delete_step env).operation
  unfolding delete_step delete_volume_claim
  delete_step-EndsIn = EndsIn-bind _ _ λ pv. EndsIn-if _ _ _ (EndsIn-modify _ (λ pv. refl)) (
      EndsIn-bind _ _ λ _.
        EndsIn-bind _ _ λ _. EndsIn-bind _ _ λ r. EndsIn-bind _ _ λ _. EndsIn-modify _ (λ pv. refl))

  move_disk-EndsIn :
      (fd : FailureDomain) (m : Migration) (infra_id name id : String) (dummy : Vm)
      → EndsIn PvStatus.relocated (move_disk env fd m infra_id name id dummy)
  unfolding move_disk
  move_disk-EndsIn fd m infra_id name id dummy = EndsIn-bind _ _ λ _. EndsIn-bind _ _ λ config.
      EndsIn-bind _ _ λ _.
        EndsIn-bind _ _ λ _. EndsIn-bind _ _ λ vm. EndsIn-bind _ _ λ r. EndsIn-modify _ (λ pv. refl)

  guard_and_move-EndsIn :
      (source target : FailureDomain) (m : Migration) (infra_id name id : String) (info : FcdInfo)
      (dummy : Vm)
      → EndsIn PvStatus.relocated (guard_and_move env source target m infra_id name id info dummy)
  unfolding guard_and_move
  guard_and_move-EndsIn source target m infra_id name id info dummy = EndsIn-bind _ _ λ pv.
      EndsIn-bind _ _ λ key. EndsIn-bind _ _ λ datastore. EndsIn-bind _ _ λ _. EndsIn-bind _ _ λ _.
        EndsIn-bind _ _ λ _.
          EndsIn-bind _ _
            λ unit_number. EndsIn-bind _ _ λ _. move_disk-EndsIn target m infra_id name id dummy

  pub relocate_step-EndsIn :
      (fd : FailureDomain) (m : Migration)
      → EndsIn PvStatus.relocated (relocate_step env fd m).operation
  unfolding relocate_step relocate_volume
  relocate_step-EndsIn fd m = EndsIn-bind _ _ λ pv. EndsIn-bind _ _ λ id. EndsIn-bind _ _ λ _.
      EndsIn-bind _ _ λ source. EndsIn-bind _ _ λ _. EndsIn-bind _ _ λ info.
        EndsIn-bind _ _ λ infra_id. EndsIn-bind _ _ λ _.
          EndsIn-bind _ _ λ dummy.
            EndsIn-deferring _ _ (guard_and_move-EndsIn source fd m infra_id _ id info dummy)

  pub register_step-EndsIn :
      (fd : FailureDomain) → EndsIn PvStatus.registered (register_step env fd).operation
  unfolding register_step register_volume
  register_step-EndsIn fd = EndsIn-bind _ _ λ pv. EndsIn-bind _ _ λ _. EndsIn-bind _ _ λ existing.
      EndsIn-if _ _ _ (EndsIn-modify _ (λ pv. refl))
        (EndsIn-bind _ _ λ infra_id. EndsIn-bind _ _ λ _. EndsIn-modify _ (λ pv. refl))

  pub update_step-EndsIn : EndsIn PvStatus.pv_updated (update_step env).operation
  unfolding update_step update_pv_and_clear_claim_ref
  update_step-EndsIn =
      EndsIn-bind _ _ λ pv. EndsIn-bind _ _ λ _. EndsIn-bind _ _ λ _. EndsIn-modify _ (λ pv. refl)

  pub restore_step-EndsIn : EndsIn PvStatus.complete (restore_step env).operation
  unfolding restore_step
  restore_step-EndsIn = EndsIn-bind _ _ λ _. EndsIn-modify _ (λ pv. refl)

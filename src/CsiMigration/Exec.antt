-- ===== src/CsiMigration/Exec.antt =====
-- The code of one volume writes its `PVMigrationState` as well as the world, and what it has
-- written stays when it returns an error.
use openshift_vsphere_migrat.Base.{ok}
use openshift_vsphere_migrat.Base.Exec.{Exec}
use openshift_vsphere_migrat.Api.{PvStatus, PvMigrationState}

abbrev pub Volume : Type 0 → Type 0
Volume S = PvMigrationState × S

module _ {S A : Type 0} where
  -- A call that does not touch the volume's state.
  abbrev pub on_world : Exec S A → Exec (Volume S) A
  on_world m (pv, s) = let (r, s') = m s in (r, (pv, s'))

  -- `defer`: what runs once the rest has returned.
  unfoldable pub deferring : (S → S) → Exec (Volume S) A → Exec (Volume S) A
  deferring f m v = let (r, (pv, s)) = m v in (r, (pv, f s))

module _ {S : Type 0} where
  unfoldable pub modify : (PvMigrationState → PvMigrationState) → Exec (Volume S) (Unit {0})
  modify f (pv, s) = (ok tt, (f pv, s))

  abbrev pub set_status : PvStatus → Exec (Volume S) (Unit {0})
  set_status status = modify (λ pv. record pv { status = status })

  abbrev pub get_volume : Exec (Volume S) PvMigrationState
  get_volume (pv, s) = (ok pv, (pv, s))

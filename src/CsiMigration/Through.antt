-- ===== src/CsiMigration/Through.antt =====
-- One run of the loop of migrate_csi_volumes.go brings every volume that a step serves to an end.
use openshift_vsphere_migrat.Base.{
  ℕ, ◌+◌, ◌*◌, ◌≤◌, ◌<◌, ◌≡◌, sym, ap, ◌∙◌, ◌⊎◌, inl, inr, true, false, List, [], ◌∷◌, leb, count,
  length, All, arith,
}
use openshift_vsphere_migrat.Base.Int32.{add, wrap, le, sign_bit}
use openshift_vsphere_migrat.Api.{
  PvStatus, PvMigrationState, CsiVolumeMigrationStatus, LogEntry, FailureDomain, Migration,
}
use openshift_vsphere_migrat.CsiMigration.Environment.{Environment}
use openshift_vsphere_migrat.CsiMigration.Pipeline.{
  Progress, is_complete, is_failed, process_volume, process_volumes,
}
use openshift_vsphere_migrat.CsiMigration.Summary.{migrate_volumes}
use openshift_vsphere_migrat.CsiMigration.Settled.{
  is_moving, Settled, process_volume-Settled, process_volume-still,
}
use openshift_vsphere_migrat.CsiMigration.Totals.{has_completed, has_failed, process_volumes-counts}

abbrev pub IsThrough : PvMigrationState → Type 0
IsThrough pv = (pv.status ≡ PvStatus.complete) ⊎ (pv.status ≡ PvStatus.failed)

-- A volume that a step serves, or that is through.
abbrev pub IsServed : PvMigrationState → Type 0
IsServed pv = (is_moving pv.status ≡ true) ⊎ IsThrough pv

-- The counters are the tally of the volumes' statuses, and far from the end of int32.
abbrev pub IsTallied : CsiVolumeMigrationStatus → Type 0
IsTallied status =
    (status.migrated_volumes ≡ count has_completed status.volumes)
    × (status.failed_volumes ≡ count has_failed status.volumes)
    × (status.total_volumes ≡ length status.volumes)
    × (2 * length status.volumes < sign_bit)

count_completed-length : (pvs : List PvMigrationState) → count has_completed pvs ≤ length pvs
count_completed-length [] = omega arith
count_completed-length (pv ∷ pvs) = ground (arith, count_completed-length pvs)

count_failed-length : (pvs : List PvMigrationState) → count has_failed pvs ≤ length pvs
count_failed-length [] = omega arith
count_failed-length (pv ∷ pvs) = ground (arith, count_failed-length pvs)

through-count :
    (pvs : List PvMigrationState)
    → All IsThrough pvs
    → count has_completed pvs + count has_failed pvs ≡ length pvs
through-count [] h = omega arith
through-count (pv ∷ pvs) (inl e, h) =
    rw (ap is_complete e, ap is_failed e) (omega (arith, through-count pvs h))
through-count (pv ∷ pvs) (inr e, h) =
    rw (ap is_complete e, ap is_failed e) (omega (arith, through-count pvs h))

Settled-IsThrough :
    {S : Type 0} (p : Progress S) (pv : PvMigrationState) (p' : Progress S)
    → Settled p (pv, p')
    → IsThrough pv
Settled-IsThrough p pv p' (inl h) = inl h.0
Settled-IsThrough p pv p' (inr h) = inr h.0

through-still : (pv : PvMigrationState) → IsThrough pv → is_moving pv.status ≡ false
through-still pv (inl e) = ap is_moving e
through-still pv (inr e) = ap is_moving e

module _ {S : Type 0} (env : Environment S) (fd : FailureDomain) (m : Migration) where
  process_volume-IsThrough :
      (pv : PvMigrationState) (p : Progress S)
      → IsServed pv
      → IsThrough (process_volume env fd m pv p).0
  process_volume-IsThrough pv p (inl moving) =
      let (pv', p') = process_volume env fd m pv p in
      Settled-IsThrough p pv' p' (process_volume-Settled env fd m pv p moving)
  process_volume-IsThrough pv p (inr h) =
      rw (process_volume-still env fd m pv p (through-still pv h)) h

  process_volumes-IsThrough :
      (pvs : List PvMigrationState) (p : Progress S)
      → All IsServed pvs
      → All IsThrough (process_volumes env fd m pvs p).0
  unfolding process_volumes
  process_volumes-IsThrough [] p h = tt
  process_volumes-IsThrough (pv ∷ pvs) p (h, hs) = (
    process_volume-IsThrough pv p h,
    process_volumes-IsThrough pvs (process_volume env fd m pv p).1 hs,
  )

  -- If the counters are the tally of the volumes' statuses before the loop over the volumes (for
  -- fewer than 2^30 volumes), then they are their tally after it, whichever calls fail.
  pub migrate_volumes-IsTallied :
      (status : CsiVolumeMigrationStatus) (logs : List LogEntry) (s : S)
      → IsTallied status
      → IsTallied (migrate_volumes env fd m status logs s).0
  unfolding migrate_volumes
  migrate_volumes-IsTallied status logs s (a, b, c, d) =
      let p : Progress S = record {
        migrated = status.migrated_volumes;
        failed = status.failed_volumes;
        logs = logs;
        world = s;
      } in
      let u = count_completed-length status.volumes in
      let v = count_failed-length status.volumes in
      let (x, y, z) =
        process_volumes-counts env fd m status.volumes p
          (omega (arith, a, u, d), omega (arith, b, v, d)) in
      (omega (arith, a, x), omega (arith, b, y), c ∙ sym z, omega (arith, z, d))

  -- And if each volume is served or through before the loop, each is through after it.
  pub migrate_volumes-IsThrough :
      (status : CsiVolumeMigrationStatus) (logs : List LogEntry) (s : S)
      → All IsServed status.volumes
      → All IsThrough (migrate_volumes env fd m status logs s).0.volumes
  unfolding migrate_volumes
  migrate_volumes-IsThrough status logs s h = process_volumes-IsThrough status.volumes _ h

leb_refl : (n : ℕ) → leb n n ≡ true
leb_refl n = ground arith

-- Counters that tally volumes which are all through reach the total.
pub tallied-reached :
    (status : CsiVolumeMigrationStatus)
    → IsTallied status
    → All IsThrough status.volumes
    → le status.total_volumes (add status.migrated_volumes status.failed_volumes) ≡ true
tallied-reached status (a, b, c, d) h =
    let e = through-count status.volumes h in
    let f : add status.migrated_volumes status.failed_volumes ≡ status.total_volumes =
      omega (arith, a, b, c, d, e) in
    ap (le status.total_volumes) f ∙ leb_refl (wrap (status.total_volumes + sign_bit))

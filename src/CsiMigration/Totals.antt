-- ===== src/CsiMigration/Totals.antt =====
-- The counters of the CSI volume migration against the statuses that they count.
use openshift_vsphere_migrat.Base.{
  ℕ, ◌+◌, ◌≤◌, ◌<◌, suc, ◌≡◌, refl, sym, ap, ◌∙◌, inl, inr, Bool, true, false, List, [], ◌∷◌,
  if◌then◌else◌, Bool-cases, count, length, arith,
}
use openshift_vsphere_migrat.Base.Int32.{add, sign_bit}
use openshift_vsphere_migrat.Api.{PvStatus, PvMigrationState, FailureDomain, Migration}
use openshift_vsphere_migrat.CsiMigration.Environment.{Environment}
use openshift_vsphere_migrat.CsiMigration.Pipeline.{
  Progress, is_complete, is_failed, process_volume, process_volumes,
}
use openshift_vsphere_migrat.CsiMigration.Settled.{
  is_moving, Settled, process_volume-Settled, process_volume-still,
}

abbrev pub has_completed : PvMigrationState → Bool
has_completed pv = is_complete pv.status

abbrev pub has_failed : PvMigrationState → Bool
has_failed pv = is_failed pv.status

abbrev one : Bool → ℕ
one b = if b then 1 else 0

-- One turn moves each counter by what it changes of the volume's status.
abbrev Turn : {S : Type 0} → Progress S → PvMigrationState → PvMigrationState × Progress S → Type 0
Turn p pv (pv', p') =
    (p'.migrated + one (has_completed pv) ≡ p.migrated + one (has_completed pv'))
    × (p'.failed + one (has_failed pv) ≡ p.failed + one (has_failed pv'))
    × (p'.migrated ≤ suc p.migrated)
    × (p'.failed ≤ suc p.failed)

abbrev HasRoom : {S : Type 0} → Progress S → ℕ → Type 0
HasRoom p n = (p.migrated + n < sign_bit) × (p.failed + n < sign_bit)

add_one : (a n : ℕ) → a + suc n < sign_bit → add a 1 ≡ suc a
add_one a n h = omega arith

moving-unfinished :
    (x : PvStatus) → is_moving x ≡ true → (is_complete x ≡ false) × (is_failed x ≡ false)
moving-unfinished PvStatus.pending e = (refl, refl)
moving-unfinished PvStatus.retain_set e = (refl, refl)
moving-unfinished PvStatus.quiesced e = (refl, refl)
moving-unfinished PvStatus.pvc_deleted e = (refl, refl)
moving-unfinished PvStatus.relocating e = (refl, refl)
moving-unfinished PvStatus.relocated e = (refl, refl)
moving-unfinished PvStatus.registered e = (refl, refl)
moving-unfinished PvStatus.pv_updated e = (refl, refl)
moving-unfinished PvStatus.complete e = (sym e, refl)
moving-unfinished PvStatus.failed e = (refl, sym e)
moving-unfinished (PvStatus.other t) e = (refl, refl)

module _ {S : Type 0} where
  Settled-Turn :
      (n : ℕ) (p : Progress S) (pv : PvMigrationState)
      → HasRoom p (suc n)
      → is_moving pv.status ≡ true
      → (pv' : PvMigrationState) (p' : Progress S) → Settled p (pv', p')
      → Turn p pv (pv', p')
  Settled-Turn n p pv room moving pv' p' (inl (x, a, b)) =
      let (u, v) = moving-unfinished pv.status moving in
      let c = a ∙ add_one p.migrated n room.0 in
      (
        rw (u, ap is_complete x) (omega (arith, c)),
        rw (v, ap is_failed x) (omega (arith, b)),
        omega (arith, c),
        omega (arith, b),
      )
  Settled-Turn n p pv room moving pv' p' (inr (x, a, b)) =
      let (u, v) = moving-unfinished pv.status moving in
      let c = b ∙ add_one p.failed n room.1 in
      (
        rw (u, ap is_complete x) (omega (arith, a)),
        rw (v, ap is_failed x) (omega (arith, c)),
        omega (arith, a),
        omega (arith, c),
      )

module _ {S : Type 0} (env : Environment S) (fd : FailureDomain) (m : Migration) where
  process_volume-Turn :
      (n : ℕ) (pv : PvMigrationState) (p : Progress S)
      → HasRoom p (suc n)
      → Turn p pv (process_volume env fd m pv p)
  process_volume-Turn n pv p room = elim (Bool-cases (is_moving pv.status)) [
    | inl e ↦
        (let (pv', p') = process_volume env fd m pv p in
          Settled-Turn n p pv room e pv' p' (process_volume-Settled env fd m pv p e))
    | inr e ↦ rw (process_volume-still env fd m pv p e) (refl, refl, omega arith, omega arith)
  ]

  -- Over the whole list, each counter moves by what it changes of the tally, whichever calls fail,
  -- and no volume is lost.
  pub process_volumes-counts :
      (pvs : List PvMigrationState) (p : Progress S)
      → HasRoom p (length pvs)
      → let (pvs', p') = process_volumes env fd m pvs p in
        (p'.migrated + count has_completed pvs ≡ p.migrated + count has_completed pvs')
        × (p'.failed + count has_failed pvs ≡ p.failed + count has_failed pvs')
        × (length pvs' ≡ length pvs)
  unfolding process_volumes
  process_volumes-counts [] p room = (refl, refl, refl)
  process_volumes-counts (pv ∷ pvs) p room =
      let (a, b, c, d) = process_volume-Turn (length pvs) pv p room in
      let (pv', p') = process_volume env fd m pv p in
      let (x, y, z) =
        process_volumes-counts pvs p' (omega (arith, c, room.0), omega (arith, d, room.1)) in
      (omega (arith, a, x), omega (arith, b, y), ap suc z)

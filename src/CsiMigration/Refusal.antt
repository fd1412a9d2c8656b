-- ===== src/CsiMigration/Refusal.antt =====
-- `relocateVolume` of migrate_csi_volumes.go on a volume that a VolumeAttachment still holds.
use openshift_vsphere_migrat.Base.{ap, String, ◌≡◌, refl, ◌∙◌, true, GoError, Result, ok, err}
use openshift_vsphere_migrat.Base.Int32.{Int32}
use openshift_vsphere_migrat.Base.Exec.{Exec, continue, ◌>>=◌}
use openshift_vsphere_migrat.Api.{PvStatus, PvMigrationState, FailureDomain, Migration}
use openshift_vsphere_migrat.Vcenter.{Vm}
use openshift_vsphere_migrat.Attachments.{is_volume_attached}
use openshift_vsphere_migrat.CsiMigration.Environment.{FcdInfo, RelocateConfig, Environment}
use openshift_vsphere_migrat.CsiMigration.Exec.{Volume, on_world, deferring, modify, get_volume}
use openshift_vsphere_migrat.CsiMigration.Relocate.{
  defense_layer_1, layer_1_verdict, guard_and_move, relocate_volume,
}

-- The volume's status and name.
abbrev Same : PvMigrationState → PvMigrationState → Type 0
Same pv' pv = (pv'.status ≡ pv.status) × (pv'.pv_name ≡ pv.pv_name)

-- An error, with the status as it was.
abbrev pub Refused : {S : Type 0} → PvStatus → Result (Unit {0}) × Volume S → Type 0
Refused x (r, (pv, s)) = ((e : GoError) × (r ≡ err e)) × (pv.status ≡ x)

record Keeps {S A : Type 0} (m : Exec (Volume S) A) : Type 0 where
  at : (v : Volume S) → Same (m v).1.0 v.0

-- Both operations are refused alike for the volume of the name.
record Refuses {S : Type 0} (name : String) (m n : Exec (Volume S) (Unit {0})) : Type 0 where
  at : (v : Volume S) → v.0.pv_name ≡ name → Refused v.0.status (m v) × (m v ≡ n v)

Keeps-modify :
    {S : Type 0} (f : PvMigrationState → PvMigrationState)
    → ((pv : PvMigrationState) → Same (f pv) pv)
    → Keeps {S = S} (modify f)
unfolding modify
Keeps-modify f h = record { at = λ v. h v.0 }

abbrev pub Moves : Type 0 → Type 0
Moves S =
    (Vm → String → String → Int32 → Int32 → Exec S (Unit {0}))
    × (Vm → RelocateConfig → Exec S (Unit {0}))

-- The environment with another `AttachDisk` and another `RelocateVM`.
abbrev pub with_moves : {S : Type 0} → Moves S → Environment S → Environment S
with_moves (attach, move) env = record env { attach_disk = attach; relocate_vm = move }

module _ {S : Type 0} {name : String} where
  continue-Refused :
      {A : Type 0} (f g : A → Exec (Volume S) (Unit {0}))
      → ((a : A) → Refuses name (f a) (g a))
      → (pv : PvMigrationState) (r : Result A) (v : Volume S) → pv.pv_name ≡ name
      → Same v.0 pv
      → Refused pv.status (continue r f v) × (continue r f v ≡ continue r g v)
  continue-Refused f g h pv (ok a) v named same =
      let ((e, x), q) = (h a).at v (same.1 ∙ named) in ((e, x ∙ same.0), q)
  continue-Refused f g h pv (err e) v named same = (((e, refl), same.0), refl)

  Refuses-bind :
      {A : Type 0} (m : Exec (Volume S) A) (f g : A → Exec (Volume S) (Unit {0}))
      → Keeps m
      → ((a : A) → Refuses name (f a) (g a))
      → Refuses name (m >>= f) (m >>= g)
  unfolding ◌>>=◌
  Refuses-bind m f g k h = record {
    at = λ v named. let (r, v') = m v in continue-Refused f g h v.0 r v' named (k.at v);
  }

  -- What the rest reads of the volume is the volume that it works on.
  Refuses-get :
      (f g : PvMigrationState → Exec (Volume S) (Unit {0}))
      → ((pv : PvMigrationState) → pv.pv_name ≡ name → Refuses name (f pv) (g pv))
      → Refuses name (get_volume >>= f) (get_volume >>= g)
  unfolding ◌>>=◌
  Refuses-get f g h = record { at = λ v named. (h v.0 named).at v named }

  -- A call that fails in every world stops the operation, whatever was to follow.
  Refuses-stop :
      (m : Exec S (Unit {0})) (f g : Unit {0} → Exec (Volume S) (Unit {0}))
      → ((s : S) → (e : GoError) × ((m s).0 ≡ err e))
      → Refuses name (on_world m >>= f) (on_world m >>= g)
  unfolding ◌>>=◌
  Refuses-stop m f g h = record {
    at = λ v named. let (e, q) = h v.1 in rw q (((e, refl), refl), refl);
  }

  Refuses-deferring :
      (f : S → S) (m n : Exec (Volume S) (Unit {0}))
      → Refuses name m n
      → Refuses name (deferring f m) (deferring f n)
  unfolding deferring
  Refuses-deferring f m n h = record {
    at = λ v named. let (a, q) = h.at v named in (a, ap (λ rv. (rv.0, (rv.1.0, f rv.1.1))) q);
  }

module _ {S : Type 0} (env : Environment S) where
  -- A VolumeAttachment names the volume, whenever it is looked up.
  abbrev pub IsHeld : String → Type 0
  IsHeld name =
      (s : S) → (node : String) × ((is_volume_attached env.client name s).0 ≡ ok (true, node))

  layer_1-fails :
      (name : String)
      → IsHeld name
      → (s : S) → (e : GoError) × ((defense_layer_1 env name s).0 ≡ err e)
  unfolding defense_layer_1 layer_1_verdict ◌>>=◌
  layer_1-fails name held s = let (node, q) = held s in rw q (_, refl)

  guard_and_move-Refuses :
      (name : String)
      → IsHeld name
      → (moves : Moves S) (source target : FailureDomain) (m : Migration)
        (infra_id vm_name id : String) (info : FcdInfo) (dummy : Vm)
      → Refuses name
          (guard_and_move env source target m infra_id vm_name id info dummy)
          (guard_and_move (with_moves moves env) source target m infra_id vm_name id info dummy)
  unfolding guard_and_move defense_layer_1
  guard_and_move-Refuses name held moves source target m infra_id vm_name id info dummy =
      Refuses-get _ _ λ pv named.
        Refuses-bind _ _ _ (record { at = λ v. (refl, refl) })
          λ key.
            Refuses-bind _ _ _ (record { at = λ v. (refl, refl) })
              λ datastore. Refuses-stop _ _ _ (λ s. rw named (layer_1-fails name held s))

  -- If a VolumeAttachment names the volume whenever it is looked up, then the relocation of the
  -- volume returns an error and leaves the volume's status as it was, and its error, volume and world
  -- are the same with any other AttachDisk and RelocateVM in place of the environment's.
  pub relocate_volume-Refused :
      (moves : Moves S) (fd : FailureDomain) (m : Migration) (pv : PvMigrationState) (s : S)
      → IsHeld pv.pv_name
      → Refused pv.status (relocate_volume env fd m (pv, s))
        × (relocate_volume env fd m (pv, s) ≡ relocate_volume (with_moves moves env) fd m (pv, s))
  unfolding relocate_volume
  relocate_volume-Refused moves fd m pv s held = refuses.at (pv, s) refl
    where
      refuses :
          Refuses pv.pv_name
            (relocate_volume env fd m)
            (relocate_volume (with_moves moves env) fd m)
      refuses = Refuses-get _ _ λ pv₁ named.
          Refuses-bind _ _ _ (record { at = λ v. (refl, refl) })
            λ id. Refuses-bind _ _ _ (Keeps-modify _ (λ pv₂. (refl, refl))) λ _.
              Refuses-bind _ _ _ (record { at = λ v. (refl, refl) })
                λ source.
                  Refuses-bind _ _ _ (record { at = λ v. (refl, refl) })
                    λ _.
                      Refuses-bind _ _ _ (record { at = λ v. (refl, refl) })
                        λ info.
                          Refuses-bind _ _ _ (record { at = λ v. (refl, refl) })
                            λ infra_id.
                              Refuses-bind _ _ _ (Keeps-modify _ (λ pv₂. (refl, refl))) λ _.
                                Refuses-bind _ _ _ (record { at = λ v. (refl, refl) })
                                  λ dummy. Refuses-deferring _ _ _ (
                                    guard_and_move-Refuses pv.pv_name held moves source fd m
                                      infra_id _ id info dummy)

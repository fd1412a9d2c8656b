-- ===== src/Infrastructure/Locking.antt =====
-- `AddTargetVCenterWithCRDModification` of pkg/openshift/infrastructure.go on an API server that
-- refuses an update whose resource version is not the stored one.
use openshift_vsphere_migrat.Base.{
  String, ◌≡◌, ◌≢◌, refl, ap, ◌∙◌, inl, inr, true, List, Option, none, some, ok, length, ◌==◌,
  nat_eq, Bool-cases,
}
use openshift_vsphere_migrat.Base.Exec.{◌>>=◌}
use openshift_vsphere_migrat.Api.{Migration}
use openshift_vsphere_migrat.Kube.Locking.{Locked}
use openshift_vsphere_migrat.Infrastructure.Validations.{Crd, CrdVersion}
use openshift_vsphere_migrat.Infrastructure.{
  Infrastructure, VsphereSpec, CrdClient, CrdCodec, InfrastructureManager, crd_name, strip_versions,
  update, add_targets, add_target_vcenter, backup_crd, backup_infrastructure_crd, modify_crd,
  modify_infrastructure_crd, restore_crd, restore_infrastructure_crd, restore_after, write_stripped,
  add_target_vcenter_with_crd_modification,
}

abbrev pub stamp : String → Crd → Crd
stamp v c = record c { resource_version = v }

-- The definition under the server's locking.
abbrev pub LockedCrd : {S : Type 0} → CrdClient S → (S → Crd) → Type 0
LockedCrd api stored = Locked (api.get crd_name) api.update (λ c. c.resource_version) stamp stored

-- The definition, marshalled and unmarshalled, comes back.
abbrev pub Keeps : CrdCodec → Crd → Type 0
Keeps codec c = (text : String) × (codec.marshal c ≡ ok text) × (codec.unmarshal text ≡ ok c)

module _ {S : Type 0} (manager : InfrastructureManager S) (api : CrdClient S) (stored : S → Crd)
    (present : manager.apiextensions_client ≡ some api) (locked : LockedCrd api stored) where
  backup_lem :
      (text : String) (s : S)
      → manager.codec.marshal (stored s) ≡ ok text
      → backup_infrastructure_crd manager s ≡ (ok text, s)
  unfolding backup_infrastructure_crd backup_crd ◌>>=◌
  backup_lem text s q = rw present (rw (locked.get_stored s) (rw q refl))

  modify_lem :
      (versions : List CrdVersion) (s : S)
      → strip_versions (stored s).versions ≡ (true, versions)
      → (s' : S) × (modify_infrastructure_crd manager s ≡ (ok tt, s'))
        × (stored s' ≡ record (stored s) {
          versions = versions;
          resource_version = locked.next (stored s).resource_version;
        })
  unfolding modify_infrastructure_crd modify_crd write_stripped ◌>>=◌
  modify_lem versions s q =
      let (s', u, w) = locked.update_current (record (stored s) { versions = versions }) s refl in
      (s', rw present (rw (locked.get_stored s) (rw q (rw u refl))), w)

  -- The infrastructure's own update leaves the definition alone.
  abbrev pub LeavesCrd : Type 0
  LeavesCrd = (i : Infrastructure) (s : S) → stored (manager.client.update i s).1 ≡ stored s

  added_leaves :
      LeavesCrd
      → (infra : Infrastructure) (m : Migration) (s : S) (v : Option VsphereSpec)
      → stored (add_targets manager infra m v s).1 ≡ stored s
  unfolding add_targets update
  added_leaves leaves infra m s none = refl
  added_leaves leaves infra m s (some v) = elim (Bool-cases (length m.spec.failure_domains == 0)) [
    | inl e ↦ rw e refl
    | inr e ↦ rw e (leaves _ s)
  ]

  add_leaves :
      LeavesCrd
      → (infra : Infrastructure) (m : Migration) (s : S)
      → stored (add_target_vcenter manager infra m s).1 ≡ stored s
  unfolding add_target_vcenter
  add_leaves leaves infra m s = added_leaves leaves infra m s infra.vsphere

  restore_refused :
      (text : String) (c : Crd) (s : S)
      → manager.codec.unmarshal text ≡ ok c
      → c.resource_version ≢ (stored s).resource_version
      → (restore_infrastructure_crd manager text s).1 ≡ s
  unfolding restore_infrastructure_crd restore_crd ◌>>=◌
  restore_refused text c s q h =
      let (e, u) = locked.update_stale c s h in rw present (rw q (rw u refl))

  -- If the API server refuses an update of a version that is not the stored one, JSON keeps the
  -- stored definition, the infrastructure's update leaves it alone, and it has a validation of the
  -- vCenters, then the modified definition stays stored, whatever the update of the
  -- infrastructure returns: the restoration sends the backup with the version from before the
  -- modification, and is refused.
  pub crd_stays_modified :
      LeavesCrd
      → (infra : Infrastructure) (m : Migration) (s : S) (versions : List CrdVersion)
      → Keeps manager.codec (stored s)
      → strip_versions (stored s).versions ≡ (true, versions)
      → stored (add_target_vcenter_with_crd_modification manager infra m s).1 ≡ record (stored s) {
        versions = versions;
        resource_version = locked.next (stored s).resource_version;
      }
  unfolding add_target_vcenter_with_crd_modification restore_after ◌>>=◌
  crd_stays_modified leaves infra m s versions keeps q =
      let (text, written, read) = keeps in
      let (s', modified, after) = modify_lem versions s q in
      let (r, s'') = add_target_vcenter manager infra m s' in
      let kept = add_leaves leaves infra m s' ∙ after in
      rw (backup_lem text s written) (
        rw modified (
          ap stored (
            restore_refused text (stored s) s'' read (λ e.
              locked.next-ne (stored s).resource_version
                (e ∙ ap (λ (c : Crd). c.resource_version) kept)))
          ∙ kept))

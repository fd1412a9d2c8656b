-- ===== src/Vcenter.antt =====
-- pkg/vsphere/fcd.go: the FCDManager's checks of where a first class disk is attached, and the two
-- text formats. The vSphere SDK is a record of calls over the same unknown world.
pub mod Handle
pub mod Waiting
use Prim.Native.String.{len, slice}
use text.Mathlib.Text.{starts_with}
use openshift_vsphere_migrat.Base.{
  Eq, string_eq, ltb, ◌+◌, ℕ, zero, suc, String, ◌<>◌, Bool, true, false, List, [], ◌∷◌, Option,
  none, some, Message, msg, lit, GoError, errorf, wrapped, context_canceled, Result, ok, err,
  if◌then◌else◌, ◌==◌, any,
}
use openshift_vsphere_migrat.Base.Exec.{
  Exec, pure, raise, attempt, continue, ◌>>=◌, ◌>>◌, wrap_result, wrap_error,
}
use openshift_vsphere_migrat.Api.{Time, Duration}

-- The disk backings that carry a `BackingObjectId`, and the rest.
pub data Backing : Type 0 where
  flat_ver2 sparse_ver2 se_sparse raw_disk_mapping_ver1 : String → Backing
  unknown : Backing

pub data Device : Type 0 where
  virtual_disk : Backing → Device
  other_device : Device

-- An `object.VirtualMachine`: a reference and the name that it reports.
pub record Vm : Type 0 where
  pub reference : String
  pub name : String

pub record Vcenter (S : Type 0) : Type 0 where
  pub now : S → Time
  pub list_virtual_machines_in_folder : String → String → Exec S (List Vm)
  -- The property `config.hardware.device`.
  pub devices : Vm → Exec S (List Device)

abbrev pub scheme : String
scheme = "file://"

-- `ParseCSIVolumeHandle`, and `ParseVSphereVolumeHandle` of pkg/openshift, which is its copy.
unfoldable pub parse_csi_volume_handle : String → Result String
parse_csi_volume_handle handle =
    if starts_with handle scheme then ok (slice handle (len scheme) (len handle)) else ok handle

-- `BuildCSIVolumeHandle`
unfoldable pub build_csi_volume_handle : String → String
build_csi_volume_handle id = scheme <> id

-- `extractBackingObjectId`
unfoldable pub extract_backing_object_id : Backing → String
extract_backing_object_id (flat_ver2 id) = id
extract_backing_object_id (sparse_ver2 id) = id
extract_backing_object_id (se_sparse id) = id
extract_backing_object_id (raw_disk_mapping_ver1 id) = id
extract_backing_object_id unknown = ""

unfoldable pub backs : String → Device → Bool
unfolding extract_backing_object_id
backs id (virtual_disk b) = extract_backing_object_id b == id
backs id other_device = false

abbrev critical : Vm → String → GoError
critical vm id = errorf (
    lit "CRITICAL: FCD "
    ∷ lit id
    ∷ lit " is still attached to VM "
    ∷ lit vm.name
    ∷ lit " - refusing to proceed to protect data"
    ∷ [])

module _ {S : Type 0} (vcenter : Vcenter S) where
  unfoldable pub is_fcd_attached_to_vm : Vm → String → Exec S Bool
  unfolding backs
  is_fcd_attached_to_vm vm id = do
    devices ← wrap_error (msg "failed to get VM properties") (vcenter.devices vm)
    pure (any (backs id) devices)

  unfoldable pub verify_fcd_not_attached_to_vm : Vm → String → Exec S (Unit {0})
  verify_fcd_not_attached_to_vm vm id = do
    attached ←
        wrap_error (lit "failed to verify FCD detachment from VM " ∷ lit vm.name ∷ [])
          (is_fcd_attached_to_vm vm id)
    if attached then raise (critical vm id) else pure tt

  after_look : Vm → (S → (Bool × String) × S) → Result Bool → S → (Bool × String) × S
  after_look vm rest (err e) s = rest s
  after_look vm rest (ok attached) s = if attached then ((true, vm.name), s) else rest s

  -- The loop of `IsFCDAttached`: a VM that cannot be read is passed over.
  unfoldable pub scan_vms : String → List Vm → S → (Bool × String) × S
  unfolding after_look
  scan_vms id [] s = ((false, ""), s)
  scan_vms id (vm ∷ vms) s =
      let (r, s') = is_fcd_attached_to_vm vm id s in after_look vm (scan_vms id vms) r s'

  unfoldable pub is_fcd_attached : String → String → String → Exec S (Bool × String)
  unfolding scan_vms
  is_fcd_attached datacenter folder id = do
    vms ←
        wrap_error (msg "failed to list VMs in folder")
          (vcenter.list_virtual_machines_in_folder datacenter folder)
    λ s. let (a, s') = scan_vms id vms s in (ok a, s')

  abbrev still_attached : String → String → GoError
  still_attached id vm =
      errorf
        (lit "timeout waiting for FCD " ∷ lit id ∷ lit " to be detached from VM " ∷ lit vm ∷ [])

  -- One turn of the loop, after the check. `again` is the next turn.
  unfoldable pub after_check :
      String → Time → Exec S (Unit {0}) → Result (Bool × String) → Exec S (Unit {0})
  after_check id deadline again (err e) s =
      (err (wrapped (msg "failed to check FCD attachment") e), s)
  after_check id deadline again (ok (false, vm)) s = (ok tt, s)
  after_check id deadline again (ok (true, vm)) s =
      if ltb deadline (vcenter.now s) then (err (still_attached id vm), s) else again s

  -- The loop of `WaitForFCDDetached`. `pause` waits for the poll interval. After `turns` pauses the
  -- context is done before the next one is over.
  unfoldable pub await_detached : (S → S) → String → String → String → Time → ℕ → Exec S (Unit {0})
  unfolding after_check
  await_detached pause datacenter folder id deadline zero s =
      let (r, s') = is_fcd_attached datacenter folder id s in
      after_check id deadline (raise context_canceled) r s'
  await_detached pause datacenter folder id deadline (suc turns) s =
      let again = λ (s' : S). await_detached pause datacenter folder id deadline turns (pause s') in
      let (r, s') = is_fcd_attached datacenter folder id s in after_check id deadline again r s'

  unfoldable pub wait_for_fcd_detached :
      (S → S) → ℕ → String → String → String → Duration → Exec S (Unit {0})
  wait_for_fcd_detached pause turns datacenter folder id timeout s =
      await_detached pause datacenter folder id (vcenter.now s + timeout) turns s

-- ===== src/Volumes.antt =====
-- pkg/openshift/persistentvolumes.go: the PersistentVolumeManager.
pub mod Backup
use openshift_vsphere_migrat.Base.{
  Eq, string_eq, ℕ, String, Bool, true, false, List, [], ◌∷◌, Option, none, some, Message, msg, lit,
  GoError, errorf, wrapped, Result, ok, err, is_not_found, is_already_exists, if◌then◌else◌, ◌==◌,
  ◌&&◌, not, any, keep, map,
}
use openshift_vsphere_migrat.Base.Exec.{
  Exec, pure, raise, attempt, continue, ◌>>=◌, ◌>>◌, wrap_result, wrap_error,
}
use openshift_vsphere_migrat.Kube.{
  CsiSource, ObjectReference, PersistentVolume, PersistentVolumeClaim, Pod, Client,
}

abbrev pub vsphere_csi_driver : String
vsphere_csi_driver = "csi.vsphere.vmware.com"

pub record VsphereCsiPv : Type 0 where
  pub name : String
  pub volume_handle : String
  pub capacity_bytes : ℕ
  pub storage_class : String
  pub access_modes : List String
  pub reclaim_policy : String
  pub claim_ref : Option ObjectReference
  pub attributes : List (String × String)

pub record PvcBackup : Type 0 where
  pub name : String
  pub namespace : String
  pub storage_class_name : String
  pub access_modes : List String
  pub resources : String
  pub labels : List (String × String)
  pub annotations : List (String × String)

-- `encoding/json` on a PVCBackup, and `encoding/base64`.
pub record Codec : Type 0 where
  pub marshal : PvcBackup → Result String
  pub unmarshal : String → Result PvcBackup
  pub encode_to_string : String → String
  pub decode_string : String → Result String

abbrev capacity_of : Option ℕ → ℕ
capacity_of none = 0
capacity_of (some n) = n

abbrev is_some {ℓ} : {A : Type ℓ} → Option A → Bool
is_some none = false
is_some (some a) = true

abbrev describe : PersistentVolume → CsiSource → VsphereCsiPv
describe pv csi = record {
  name = pv.name;
  volume_handle = csi.volume_handle;
  capacity_bytes = capacity_of pv.capacity;
  storage_class = pv.storage_class_name;
  access_modes = pv.access_modes;
  reclaim_policy = pv.reclaim_policy;
  claim_ref = pv.claim_ref;
  attributes = csi.volume_attributes;
}

-- The loop's body: a PV that is not skipped is appended.
unfoldable pub csi_pv : PersistentVolume → Option CsiSource → List VsphereCsiPv → List VsphereCsiPv
csi_pv pv none rest = rest
csi_pv pv (some csi) rest =
    if not (csi.driver == vsphere_csi_driver)
    then rest
    else if is_some pv.deletion_timestamp
    then rest
    else describe pv csi ∷ rest

unfoldable pub csi_pvs : List PersistentVolume → List VsphereCsiPv
unfolding csi_pv
csi_pvs [] = []
csi_pvs (pv ∷ pvs) = csi_pv pv pv.csi (csi_pvs pvs)

-- Some volume of the list is the claim.
abbrev names_claim : String → Option String → Bool
names_claim claim none = false
names_claim claim (some c) = c == claim

unfoldable pub uses_claim : String → List (Option String) → Bool
uses_claim claim volumes = any (names_claim claim) volumes

abbrev with_handle : PersistentVolume → CsiSource → String → PersistentVolume
with_handle pv csi handle = record pv { csi = some (record csi { volume_handle = handle }) }

abbrev option_of_text : String → Option String
option_of_text s = if s == "" then none else some s

abbrev text_of_option : Option String → String
text_of_option none = ""
text_of_option (some s) = s

unfoldable pub backup_of : PersistentVolumeClaim → PvcBackup
backup_of pvc = record {
  name = pvc.name;
  namespace = pvc.namespace;
  storage_class_name = text_of_option pvc.storage_class_name;
  access_modes = pvc.access_modes;
  resources = pvc.resources;
  labels = pvc.labels;
  annotations = pvc.annotations;
}

-- The claim that is created names its volume; its status is the server's to fill.
unfoldable pub claim_of : PvcBackup → String → PersistentVolumeClaim
claim_of backup target = record {
  name = backup.name;
  namespace = backup.namespace;
  labels = backup.labels;
  annotations = backup.annotations;
  access_modes = backup.access_modes;
  resources = backup.resources;
  storage_class_name = option_of_text backup.storage_class_name;
  volume_name = target;
  phase = "";
}

-- `IsPVBound`
unfoldable pub is_pv_bound : PersistentVolume → Bool
is_pv_bound pv = pv.phase == "Bound" && is_some pv.claim_ref

abbrev claim_names : Option ObjectReference → String × String × Bool
claim_names none = ("", "", false)
claim_names (some r) = (r.namespace, r.name, true)

-- `GetPVCFromPV`
unfoldable pub get_pvc_from_pv : PersistentVolume → String × String × Bool
get_pvc_from_pv pv = claim_names pv.claim_ref

abbrev handle_of : String → Option CsiSource → Result String
handle_of name none = err (errorf (lit "PV " ∷ lit name ∷ lit " is not a CSI volume" ∷ []))
handle_of name (some csi) = ok csi.volume_handle

-- `GetVolumeHandleFromPV`
unfoldable pub get_volume_handle_from_pv : PersistentVolume → Result String
get_volume_handle_from_pv pv = handle_of pv.name pv.csi

module _ {S : Type 0} (client : Client S) where
  unfoldable pub list_vsphere_csi_volumes : Exec S (List VsphereCsiPv)
  list_vsphere_csi_volumes = do
    pvs ← wrap_error (msg "failed to list PersistentVolumes") client.list_pvs
    pure (csi_pvs pvs)

  set_handle : String → String → PersistentVolume → Option CsiSource → Exec S (Unit {0})
  set_handle name handle pv none =
      raise (errorf (lit "PV " ∷ lit name ∷ lit " is not a CSI volume" ∷ []))
  set_handle name handle pv (some csi) =
      wrap_error (lit "failed to update PV " ∷ lit name ∷ [])
        (client.update_pv (with_handle pv csi handle))

  unfoldable pub update_pv_volume_handle : String → String → Exec S (Unit {0})
  unfolding set_handle
  update_pv_volume_handle name handle = do
    pv ← wrap_error (lit "failed to get PV " ∷ lit name ∷ []) (client.get_pv name)
    set_handle name handle pv pv.csi

  unfoldable pub find_pods_using_pvc : String → String → Exec S (List Pod)
  find_pods_using_pvc namespace name = do
    pods ←
        wrap_error (lit "failed to list pods in namespace " ∷ lit namespace ∷ [])
          (client.list_pods namespace)
    pure (keep (λ pod. uses_claim name pod.volumes) pods)

  -- `GetPVsByStorageClass`
  unfoldable pub get_pvs_by_storage_class : String → Exec S (List PersistentVolume)
  get_pvs_by_storage_class class = do
    pvs ← wrap_error (msg "failed to list PersistentVolumes") client.list_pvs
    pure (keep (λ pv. pv.storage_class_name == class) pvs)

  -- What follows the `Get` of `UpdatePVReclaimPolicy`.
  set_policy : String → String → PersistentVolume → Exec S String
  set_policy name policy pv =
      if pv.reclaim_policy == policy
      then pure pv.reclaim_policy
      else wrap_error (lit "failed to update PV " ∷ lit name ∷ lit " reclaim policy" ∷ [])
          (client.update_pv (record pv { reclaim_policy = policy }))
        >> pure pv.reclaim_policy

  -- The original policy comes back.
  unfoldable pub update_pv_reclaim_policy : String → String → Exec S String
  unfolding set_policy
  update_pv_reclaim_policy name policy = do
    pv ← wrap_error (lit "failed to get PV " ∷ lit name ∷ []) (client.get_pv name)
    set_policy name policy pv

  -- An error of the reason `NotFound` counts as done.
  deleted : Message → Result (Unit {0}) → Exec S (Unit {0})
  deleted what (ok u) = pure tt
  deleted what (err e) = if is_not_found e then pure tt else raise (wrapped what e)

  unfoldable pub delete_pvc : String → String → Exec S (Unit {0})
  unfolding deleted
  delete_pvc namespace name = do
    r ← attempt (client.delete_pvc namespace name)
    deleted (lit "failed to delete PVC " ∷ lit namespace ∷ lit "/" ∷ lit name ∷ []) r

  -- One look at a claim that is being deleted.
  unfoldable pub is_pvc_deleted : Result PersistentVolumeClaim → Exec S Bool
  is_pvc_deleted (ok pvc) = pure false
  is_pvc_deleted (err e) = if is_not_found e then pure true else raise e

  unfoldable pub wait_for_pvc_deleted : String → String → ℕ → Exec S (Unit {0})
  unfolding is_pvc_deleted
  wait_for_pvc_deleted namespace name timeout =
      client.poll 2000000000 timeout
        (do r ← attempt (client.get_pvc namespace name); is_pvc_deleted r)

  clear_claim_ref : String → PersistentVolume → Option ObjectReference → Exec S (Unit {0})
  clear_claim_ref name pv none = pure tt
  clear_claim_ref name pv (some r) =
      wrap_error (lit "failed to clear claimRef on PV " ∷ lit name ∷ [])
        (client.update_pv (record pv { claim_ref = none }))

  unfoldable pub clear_pv_claim_ref : String → Exec S (Unit {0})
  unfolding clear_claim_ref
  clear_pv_claim_ref name = do
    pv ← wrap_error (lit "failed to get PV " ∷ lit name ∷ []) (client.get_pv name)
    clear_claim_ref name pv pv.claim_ref

  unfoldable pub backup_pvc_spec : Codec → String → String → Exec S String
  unfolding backup_of
  backup_pvc_spec codec namespace name = do
    pvc ←
        wrap_error (lit "failed to get PVC " ∷ lit namespace ∷ lit "/" ∷ lit name ∷ [])
          (client.get_pvc namespace name)
    json ← wrap_error (msg "failed to marshal PVC backup") (λ s. (codec.marshal (backup_of pvc), s))
    pure (codec.encode_to_string json)

  -- A claim that is there already counts as created.
  unfoldable pub created : Message → Result (Unit {0}) → Exec S (Unit {0})
  created what (ok u) = pure tt
  created what (err e) = if is_already_exists e then pure tt else raise (wrapped what e)

  unfoldable pub restore_pvc : Codec → String → String → Exec S (Unit {0})
  unfolding claim_of created
  restore_pvc codec spec target = do
    json ← wrap_error (msg "failed to decode PVC backup") (λ s. (codec.decode_string spec, s))
    backup ← wrap_error (msg "failed to unmarshal PVC backup") (λ s. (codec.unmarshal json, s))
    r ← attempt (client.create_pvc backup.namespace (claim_of backup target))
    created (lit "failed to create PVC " ∷ lit backup.namespace ∷ lit "/" ∷ lit backup.name ∷ []) r

  unfoldable pub wait_for_pvc_bound : String → String → ℕ → Exec S (Unit {0})
  wait_for_pvc_bound namespace name timeout =
      client.poll 2000000000 timeout
        (do pvc ← client.get_pvc namespace name; pure (pvc.phase == "Bound"))

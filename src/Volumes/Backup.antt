-- ===== src/Volumes/Backup.antt =====
-- `BackupPVCSpec` and `RestorePVC` of pkg/openshift/persistentvolumes.go, one after the other.
use openshift_vsphere_migrat.Base.{String, ◌≡◌, [], ◌∷◌, lit, Result, ok}
use openshift_vsphere_migrat.Kube.{PersistentVolumeClaim, Client}
use openshift_vsphere_migrat.Volumes.{PvcBackup, Codec, backup_of, claim_of, created}

-- What the JSON and base64 libraries document: what is encoded decodes to itself.
pub record Decodes (codec : Codec) : Type 0 where
  pub unmarshal-marshal :
      (b : PvcBackup) (json : String) → codec.marshal b ≡ ok json → codec.unmarshal json ≡ ok b
  pub decode-encode : (json : String) → codec.decode_string (codec.encode_to_string json) ≡ ok json

-- The claim that is created for a volume from another claim's backup.
abbrev pub restored : PersistentVolumeClaim → String → PersistentVolumeClaim
unfolding claim_of backup_of
restored pvc target = claim_of (backup_of pvc) target

module _ {S : Type 0} (client : Client S) (codec : Codec) (decodes : Decodes codec) where
  abbrev created_after : PersistentVolumeClaim → String → S → Result (Unit {0}) × S
  created_after pvc target t =
      let (r, t') = client.create_pvc pvc.namespace (restored pvc target) t in
      created client (lit "failed to create PVC " ∷ lit pvc.namespace ∷ lit "/" ∷ lit pvc.name ∷ [])
        r t'

  -- What a successful backup shows of what was read.
  abbrev IsBackup : Result PersistentVolumeClaim → String → S → S → Type 0
  IsBackup r spec u s' =
      (pvc : PersistentVolumeClaim) × (json : String) × (r ≡ ok pvc)
      × (codec.marshal (backup_of pvc) ≡ ok json)
      × (codec.encode_to_string json ≡ spec)
      × (u ≡ s')

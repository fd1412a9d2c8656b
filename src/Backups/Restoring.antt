-- ===== src/Backups/Restoring.antt =====
-- `BackupResource` and `RestoreResource` of pkg/backup on an API server that refuses stale updates.
use openshift_vsphere_migrat.Base.{String, ◌≡◌, ok}
use openshift_vsphere_migrat.Kube.Locking.{Locked}
use openshift_vsphere_migrat.Backups.{Gvk, Unstructured, BackupCodec, DynamicClient}

-- The object, marshalled to JSON, turned into YAML and encoded, is what decoding and parsing give back.
abbrev pub Keeps : BackupCodec → Unstructured → Type 0
Keeps codec u =
    (json : String) × (yaml : String) × (codec.marshal u ≡ ok json)
    × (codec.json_to_yaml json ≡ ok yaml)
    × (codec.decode_string (codec.encode_to_string yaml) ≡ ok yaml)
    × (codec.unmarshal_yaml yaml ≡ ok u)

abbrev pub stamp : String → Unstructured → Unstructured
stamp v u = record u { resource_version = v }

-- The object that a backup keeps of another.
abbrev pub kept : BackupCodec → Gvk → Unstructured → Unstructured
kept codec gvk u = record u { api_version = codec.group_version gvk; kind = gvk.kind }

-- The object of a backup, under the server's locking.
abbrev pub LockedObject :
    {S : Type 0} → DynamicClient S → Unstructured → (S → Unstructured) → Type 0
LockedObject client o stored =
    Locked (client.get o.api_version o.kind o.name o.namespace) client.update
      (λ u. u.resource_version) stamp stored

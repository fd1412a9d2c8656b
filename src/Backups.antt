-- ===== src/Backups.antt =====
-- pkg/backup: the BackupManager and the RestoreManager.
pub mod Manifests
pub mod Restoring
use openshift_vsphere_migrat.Base.{
  ℕ, zero, suc, ◌+◌, String, Bool, true, false, not, ◌&&◌, List, [], ◌∷◌, ◌++◌, reverse, Option,
  none, some, Message, msg, lit, number, GoError, errorf, wrapped, Result, ok, err, is_not_found,
  if◌then◌else◌, ◌==◌, string_eq, nat_eq, find, length, error_text,
}
use openshift_vsphere_migrat.Base.Exec.{Exec, pure, raise, gets, attempt, ◌>>=◌, ◌>>◌, wrap_error}
use openshift_vsphere_migrat.Api.{Time, BackupManifest, Migration}

pub record Gvk : Type 0 where
  pub group : String
  pub version : String
  pub kind : String

-- The Go type of an object that is backed up.
pub data ObjectType : Type 0 where
  infrastructure secret config_map other : ObjectType

-- An object as the backup sees it. `content` is what the code never looks into.
pub record KubeObject : Type 0 where
  pub object_type : ObjectType
  pub gvk : Gvk
  pub name : String
  pub namespace : String
  pub resource_version : String
  pub content : String

-- `unstructured.Unstructured`, by the parts that the code reads or writes.
pub record Unstructured : Type 0 where
  pub api_version : String
  pub kind : String
  pub name : String
  pub namespace : String
  pub resource_version : String
  pub content : String

-- The libraries that the backups go through: the scheme, the converter, JSON, YAML and base64.
pub record BackupCodec : Type 0 where
  pub object_kinds : KubeObject → Result (List Gvk)
  -- `gvk.GroupVersion().String()`
  pub group_version : Gvk → String
  pub to_unstructured : KubeObject → Result Unstructured
  pub marshal : Unstructured → Result String
  pub json_to_yaml : String → Result String
  pub unmarshal_yaml : String → Result Unstructured
  pub encode_to_string : String → String
  pub decode_string : String → Result String

abbrev is_empty_gvk : Gvk → Bool
is_empty_gvk g = g.group == "" && (g.version == "" && g.kind == "")

-- The fall-back for the well-known types.
unfoldable pub gvk_of_type : ObjectType → Result Gvk
gvk_of_type infrastructure =
    ok (record { group = "config.openshift.io"; version = "v1"; kind = "Infrastructure" })
gvk_of_type secret = ok (record { group = ""; version = "v1"; kind = "Secret" })
gvk_of_type config_map = ok (record { group = ""; version = "v1"; kind = "ConfigMap" })
gvk_of_type other = err (errorf (msg "cannot determine GVK for object of type"))

abbrev first_kind : ObjectType → Result (List Gvk) → Result Gvk
first_kind t (ok (g ∷ gs)) = ok g
first_kind t (ok []) = gvk_of_type t
first_kind t (err e) = gvk_of_type t

unfoldable pub get_gvk_for_object : BackupCodec → KubeObject → Result Gvk
unfolding gvk_of_type
get_gvk_for_object codec o =
    if is_empty_gvk o.gvk then first_kind o.object_type (codec.object_kinds o) else ok o.gvk

abbrev lift : {S A : Type 0} → Result A → Exec S A
lift r s = (r, s)

module _ {S : Type 0} (now : S → Time) (codec : BackupCodec) where
  unfoldable pub backup_resource : KubeObject → String → Exec S BackupManifest
  unfolding get_gvk_for_object
  backup_resource o resource_type = do
    gvk ← wrap_error (msg "cannot determine GVK for object") (lift (get_gvk_for_object codec o))
    u ← wrap_error (msg "failed to convert to unstructured") (lift (codec.to_unstructured o))
    json ←
        wrap_error (msg "failed to marshal resource to JSON") (
          lift
            (codec.marshal (record u { api_version = codec.group_version gvk; kind = gvk.kind })))
    yaml ← wrap_error (msg "failed to convert JSON to YAML") (lift (codec.json_to_yaml json))
    time ← gets now
    pure (record {
      resource_type = resource_type;
      name = o.name;
      namespace = o.namespace;
      backup_data = codec.encode_to_string yaml;
      backup_time = time;
    })

-- The key under which a manifest is kept.
unfoldable pub is_backup_of : String → String → String → BackupManifest → Bool
is_backup_of resource_type name namespace b =
    b.resource_type == resource_type && (b.name == name && b.namespace == namespace)

-- `AddBackupToMigration` on the list of the status.
unfoldable pub add_backup : BackupManifest → List BackupManifest → List BackupManifest
unfolding is_backup_of
add_backup b [] = b ∷ []
add_backup b (x ∷ xs) =
    let rest = x ∷ add_backup b xs in
    if is_backup_of b.resource_type b.name b.namespace x then b ∷ xs else rest

abbrev found : Option BackupManifest → String → String → String → Result BackupManifest
found (some b) resource_type name namespace = ok b
found none resource_type name namespace = err (
    errorf (
      lit "backup not found for "
      ∷ lit resource_type
      ∷ lit "/"
      ∷ lit name
      ∷ lit " in namespace "
      ∷ lit namespace
      ∷ []))

-- `GetBackup` on the list of the status.
unfoldable pub get_backup : List BackupManifest → String → String → String → Result BackupManifest
unfolding is_backup_of
get_backup manifests resource_type name namespace =
    found (find (is_backup_of resource_type name namespace) manifests) resource_type name namespace

-- controller-runtime's client on unstructured objects: `get` by API version, kind, name and namespace.
-- A write fills its argument with the server's answer, which the code drops.
pub record DynamicClient (S : Type 0) : Type 0 where
  pub get : String → String → String → String → Exec S Unstructured
  pub create : Unstructured → Exec S Unstructured
  pub update : Unstructured → Exec S Unstructured

-- What `wait.ExponentialBackoff` runs: three tries, with pauses of one and two seconds and jitter
-- between them. `pause` is the pause before a further try.
pub record RestoreManager (S : Type 0) : Type 0 where
  pub client : Option (DynamicClient S)
  pub codec : BackupCodec
  pub pause : S → S

module _ {S : Type 0} (manager : RestoreManager S) where
  -- What follows the `Get` of the object that is stored.
  unfoldable pub restore_over :
      DynamicClient S → Unstructured → Result Unstructured → Exec S (Unit {0})
  restore_over client o (ok current) =
      wrap_error (msg "failed to update resource")
        (client.update (record o { resource_version = current.resource_version }))
      >> pure tt
  restore_over client o (err e) =
      if is_not_found e
      then wrap_error (msg "failed to create resource")
          (client.create (record o { resource_version = "" }))
        >> pure tt
      else raise (wrapped (msg "failed to get current resource") e)

  restore_with : BackupManifest → Option (DynamicClient S) → Exec S (Unit {0})
  unfolding restore_over
  restore_with b none =
      raise (errorf (msg "restore manager not properly initialized: client is nil"))
  restore_with b (some client) = do
    yaml ←
        wrap_error (msg "failed to decode backup data")
          (lift (manager.codec.decode_string b.backup_data))
    o ← wrap_error (msg "failed to unmarshal YAML") (lift (manager.codec.unmarshal_yaml yaml))
    current ← attempt (client.get o.api_version o.kind o.name o.namespace)
    restore_over client o current

  unfoldable pub restore_resource : BackupManifest → Exec S (Unit {0})
  unfolding restore_with
  restore_resource b = restore_with b manager.client

  -- One try, and `tries` more after a failure. The last error is kept.
  unfoldable pub retry : ℕ → BackupManifest → Result (Unit {0}) → Exec S (Unit {0})
  unfolding restore_resource
  retry tries b (ok u) s = (ok tt, s)
  retry zero b (err e) s = (err (wrapped (msg "restore failed after retries") e), s)
  retry (suc tries) b (err e) s =
      let (r, s') = restore_resource b (manager.pause s) in retry tries b r s'

  unfoldable pub restore_resource_with_retry : BackupManifest → Exec S (Unit {0})
  unfolding retry
  restore_resource_with_retry b = do r ← attempt (restore_resource b); retry 2 b r

  abbrev failed_restore : BackupManifest → Result (Unit {0}) → List GoError
  failed_restore b (ok u) = []
  failed_restore b (err e) =
      wrapped (lit "restore " ∷ lit b.resource_type ∷ lit "/" ∷ lit b.name ∷ []) e ∷ []

  -- The loop, which goes on after an error, over the manifests in the order given.
  unfoldable pub restore_each : List BackupManifest → S → List GoError × S
  unfolding restore_resource_with_retry
  restore_each [] s = ([], s)
  restore_each (b ∷ bs) s =
      let (r, s') = restore_resource_with_retry b s in
      let (errors, s'') = restore_each bs s' in (failed_restore b r ++ errors, s'')

  -- `errors.Join`: the texts, with a line break between them.
  abbrev join : GoError → List GoError → Message
  join e [] = error_text e
  join e (e' ∷ es) = error_text e ++ lit "\n" ∷ join e' es

  abbrev all_restored : List GoError → Result (Unit {0})
  all_restored [] = ok tt
  all_restored (e ∷ es) = err (
      errorf
        (lit "restore completed with " ∷ number (length (e ∷ es)) ∷ lit " errors: " ∷ join e es))

  unfoldable pub restore_all_backups : Migration → Exec S (Unit {0})
  unfolding restore_each
  restore_all_backups m s =
      let (errors, s') = restore_each (reverse m.status.backup_manifests) s in
      (all_restored errors, s')

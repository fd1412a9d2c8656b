-- ===== src/Tests/Backups.antt =====
-- A Secret that is backed up, changed and restored.
use openshift_vsphere_migrat.Base.{String, some, ok, msg, errorf, err}
use openshift_vsphere_migrat.Base.Exec.{raise}
use openshift_vsphere_migrat.Api.{BackupManifest}
use openshift_vsphere_migrat.Backups.{
  Gvk, ObjectType, KubeObject, Unstructured, BackupCodec, DynamicClient, RestoreManager,
}
use openshift_vsphere_migrat.Backups.Restoring.{stamp, kept, LockedObject}
use openshift_vsphere_migrat.Tests.Cell.{read, write, write-Locked}

abbrev manifest : String → String → BackupManifest
manifest name text = record {
  resource_type = "Secret";
  name = name;
  namespace = "kube-system";
  backup_data = text;
  backup_time = 0;
}

abbrev secret_kind : Gvk
secret_kind = record { group = ""; version = "v1"; kind = "Secret" }

abbrev pub object : KubeObject
object = record {
  object_type = ObjectType.secret;
  gvk = record { group = ""; version = ""; kind = "" };
  name = "vsphere-creds";
  namespace = "kube-system";
  resource_version = "1";
  content = "data";
}

abbrev converted : Unstructured
converted = record {
  api_version = "";
  kind = "";
  name = "vsphere-creds";
  namespace = "kube-system";
  resource_version = "1";
  content = "data";
}

abbrev backed_up : Unstructured
backed_up = record converted { api_version = "v1"; kind = "Secret" }

-- A codec for one object, whose kind the scheme does not know.
abbrev pub codec : BackupCodec
codec = record {
  object_kinds = λ o. err (errorf (msg "no kind is registered"));
  group_version = λ g. g.version;
  to_unstructured = λ o. ok converted;
  marshal = λ u. ok "json";
  json_to_yaml = λ json. ok "yaml";
  unmarshal_yaml = λ yaml. ok backed_up;
  encode_to_string = λ text. text;
  decode_string = λ text. ok text;
}

abbrev version : Unstructured → String
version u = u.resource_version

abbrev dynamic_client : DynamicClient Unstructured
dynamic_client = record {
  get = λ api kind name namespace. read version stamp;
  create = λ u. raise (errorf (msg "exists"));
  update = write version stamp;
}

abbrev manager : RestoreManager Unstructured
manager = record { client = some dynamic_client; codec = codec; pause = λ s. s }

-- The server of the restoration refuses stale updates.
locked : LockedObject dynamic_client (kept codec secret_kind converted) (λ s. s)
unfolding write-Locked
locked = write-Locked version stamp

-- What a later change has made of it.
abbrev changed : Unstructured
changed = record backed_up { resource_version = "4"; content = "other data" }

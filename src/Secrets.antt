-- ===== src/Secrets.antt =====
-- pkg/openshift/secrets.go: the SecretManager.
pub mod Keys
pub mod Credentials
use openshift_vsphere_migrat.Base.{
  String, ◌<>◌, List, [], ◌∷◌, Option, none, some, msg, lit, errorf, Result, ok, err,
}
use openshift_vsphere_migrat.Base.Exec.{Exec, pure, raise, ◌>>=◌, wrap_error}
use openshift_vsphere_migrat.Base.Maps.{lookup, insert, remove}
use openshift_vsphere_migrat.Api.{Migration}

-- `entries` is the `Data` map, `none` where it is nil.
pub record Secret : Type 0 where
  pub name : String
  pub namespace : String
  pub resource_version : String
  pub entries : Option (List (String × String))

-- Secrets by namespace and name. The calls take and return copies.
pub record SecretClient (S : Type 0) : Type 0 where
  pub get : String → String → Exec S Secret
  pub update : String → Secret → Exec S Secret

abbrev pub creds_namespace : String
creds_namespace = "kube-system"

abbrev pub creds_name : String
creds_name = "vsphere-creds"

unfoldable pub username_key : String → String
username_key server = server <> ".username"

unfoldable pub password_key : String → String
password_key server = server <> ".password"

abbrev pub entries_of : Option (List (String × String)) → List (String × String)
entries_of none = []
entries_of (some m) = m

-- The secret with the credentials of a server in its map.
unfoldable pub with_creds : String → String → String → Secret → Secret
with_creds server username password secret = record secret {
  entries = some (
      insert (password_key server) password
        (insert (username_key server) username (entries_of secret.entries)));
}

abbrev held : Secret → String → String → String → Option String → Secret
held secret server username password (some old) = record secret {
  entries = some (entries_of secret.entries);
}
held secret server username password none = with_creds server username password secret

-- The caller's object after `AddTargetVCenterCreds`, which writes into its map: the resource version
-- stays the one that was read.
unfoldable pub caller_secret : Secret → String → String → String → Secret
unfolding with_creds username_key
caller_secret secret server username password =
    held secret server username password (lookup (username_key server) (entries_of secret.entries))

module _ {S : Type 0} (client : SecretClient S) where
  unfoldable pub get_vsphere_creds_secret : Exec S Secret
  get_vsphere_creds_secret = client.get creds_namespace creds_name

  abbrev written : Secret → Exec S Secret
  written secret = wrap_error (msg "failed to update secret") (client.update creds_namespace secret)

  add_missing : Secret → String → String → String → Option String → Exec S Secret
  unfolding with_creds
  add_missing secret server username password (some old) =
      pure (record secret { entries = some (entries_of secret.entries) })
  add_missing secret server username password none =
      written (with_creds server username password secret)

  -- `secret.Data` is made where it is nil, also where nothing else is written.
  unfoldable pub add_target_vcenter_creds : Secret → String → String → String → Exec S Secret
  unfolding add_missing username_key
  add_target_vcenter_creds secret server username password =
      add_missing secret server username password
        (lookup (username_key server) (entries_of secret.entries))

  remove_present : Secret → String → Option (List (String × String)) → Exec S Secret
  remove_present secret server none = pure secret
  remove_present secret server (some m) = written (record secret {
    entries = some (remove (password_key server) (remove (username_key server) m));
  })

  unfoldable pub remove_source_vcenter_creds : Secret → String → Exec S Secret
  unfolding remove_present
  remove_source_vcenter_creds secret server = remove_present secret server secret.entries

  abbrev found : Option String → String → String → Exec S String
  found none what server = raise (errorf (lit what ∷ lit server ∷ []))
  found (some value) what server = pure value

  unfoldable pub get_credentials : String → Exec S (String × String)
  unfolding get_vsphere_creds_secret username_key password_key
  get_credentials server = do
    secret ← get_vsphere_creds_secret
    username ←
        found (lookup (username_key server) (entries_of secret.entries))
          "username not found for server " server
    password ←
        found (lookup (password_key server) (entries_of secret.entries))
          "password not found for server " server
    pure (username, password)

  abbrev found_in : Option String → String → String → String → String → String → Exec S String
  found_in none what server namespace name key = raise (
      errorf (
        lit what
        ∷ lit server
        ∷ lit " in secret "
        ∷ lit namespace
        ∷ lit "/"
        ∷ lit name
        ∷ lit " (expected key: "
        ∷ lit key
        ∷ lit ")"
        ∷ []))
  found_in (some value) what server namespace name key = pure value

  unfoldable pub get_vcenter_creds_from_secret : String → String → String → Exec S (String × String)
  unfolding username_key password_key
  get_vcenter_creds_from_secret namespace name server = do
    secret ←
        wrap_error (lit "failed to get secret " ∷ lit namespace ∷ lit "/" ∷ lit name ∷ [])
          (client.get namespace name)
    username ←
        found_in (lookup (username_key server) (entries_of secret.entries))
          "username not found for server " server namespace name (username_key server)
    password ←
        found_in (lookup (password_key server) (entries_of secret.entries))
          "password not found for server " server namespace name (password_key server)
    pure (username, password)

  unfoldable pub get_target_vcenter_credentials : Migration → Exec S Secret
  get_target_vcenter_credentials m =
      let ref = m.spec.target_vcenter_credentials_secret in client.get ref.namespace ref.name

-- ===== src/ConfigMaps.antt =====
-- pkg/openshift/configmaps.go: the ConfigMapManager.
use openshift_vsphere_migrat.Base.{
  String, true, List, [], ◌∷◌, ◌++◌, Option, none, some, msg, errorf, if◌then◌else◌, ◌==◌,
  string_eq, nat_eq, any, length,
}
use openshift_vsphere_migrat.Base.Exec.{Exec, pure, raise, ◌>>=◌, wrap_error}
use openshift_vsphere_migrat.Base.Maps.{lookup, insert}
use openshift_vsphere_migrat.Api.{FailureDomain, Migration}
use openshift_vsphere_migrat.Machines.Json.{
  Items, Fields, boolean, number, text, array, object, nil, item, empty, field, set, JsonCodec,
  object_at,
}

-- `entries` is the `Data` map, `none` where it is nil.
pub record ConfigMap : Type 0 where
  pub resource_version : String
  pub entries : Option (List (String × String))

-- `codec` is the YAML library on `map[string]interface{}`, `range` the order in which a map is visited.
pub record ConfigMapManager (S : Type 0) : Type 0 where
  pub get : String → String → Exec S ConfigMap
  pub update : String → ConfigMap → Exec S ConfigMap
  pub codec : JsonCodec
  pub range : List (String × List String) → List (String × List String)

abbrev config_namespace : String
config_namespace = "openshift-config"

abbrev config_name : String
config_name = "cloud-provider-config"

abbrev entries_of : Option (List (String × String)) → List (String × String)
entries_of none = []
entries_of (some m) = m

abbrev text_of : Option String → String
text_of none = ""
text_of (some t) = t

abbrev datacenters_of : Option (List String) → List String
datacenters_of none = []
datacenters_of (some l) = l

abbrev with_datacenter : String → List String → List String
with_datacenter dc l = if any (λ d. d == dc) l then l else l ++ dc ∷ []

-- `vCenterMap`: each server's datacenters, once each.
unfoldable pub vcenter_map :
    List FailureDomain → List (String × List String) → List (String × List String)
vcenter_map [] m = m
vcenter_map (fd ∷ fds) m =
    let m' =
      insert fd.server
        (with_datacenter fd.topology.datacenter (datacenters_of (lookup fd.server m))) m in
    vcenter_map fds (if fd.server == "" then m else m')

abbrev texts : List String → Items
texts [] = nil
texts (t ∷ ts) = item (text t) (texts ts)

unfoldable pub vcenter_config : String → List String → Fields
vcenter_config server datacenters = field "server" (text server) (
    field "port" (number 443) (
      field "insecureFlag" (boolean true) (
        field "datacenters" (array (texts datacenters)) (
          field "user" (text "") (
            field "password" (text "") (
              field "tenantref" (text "") (
                field "soapRoundtripCount" (number 0) (
                  field "caFile" (text "") (
                    field "thumbprint" (text "") (
                      field "secretref" (text "") (
                        field "secretName" (text "") (
                          field "secretNamespace" (text "")
                            (field "ipFamily" (array nil) empty)))))))))))))

unfoldable pub add_sections : List (String × List String) → Fields → Fields
unfolding vcenter_config set
add_sections [] section = section
add_sections ((server, datacenters) ∷ rest) section =
    add_sections rest (set server (object (vcenter_config server datacenters)) section)

abbrev section_of : Option Fields → Fields
section_of none = empty
section_of (some fs) = fs

-- `delete(m, k)`
unfoldable pub delete : String → Fields → Fields
delete k empty = empty
delete k (field j v fs) = let rest = delete k fs in if j == k then rest else field j v rest

module _ {S : Type 0} (manager : ConfigMapManager S) where
  unfoldable pub get_cloud_provider_config : Exec S ConfigMap
  get_cloud_provider_config = manager.get config_namespace config_name

  -- The edited configuration is marshalled and written.
  unfoldable pub write_config : ConfigMap → Fields → Exec S ConfigMap
  write_config cm config = do
    yaml ←
        wrap_error (msg "failed to marshal config to YAML") (λ s. (manager.codec.marshal config, s))
    wrap_error (msg "failed to update cloud-provider-config") (
        manager.update config_namespace
          (record cm { entries = some (insert "config" yaml (entries_of cm.entries)) }))

  unfoldable pub parse_config : String → Exec S Fields
  parse_config yaml =
      wrap_error (msg "failed to parse config as YAML") (λ s. (manager.codec.unmarshal yaml, s))

  unfoldable pub add_target_vcenter_to_config : ConfigMap → Migration → Exec S ConfigMap
  unfolding write_config parse_config add_sections vcenter_map
  add_target_vcenter_to_config cm m =
      let current = text_of (lookup "config" (entries_of cm.entries)) in
      if length m.spec.failure_domains == 0
      then raise (errorf (msg "no failure domains specified in migration spec"))
      else if current == ""
      then raise (errorf (msg "config key not found or empty in ConfigMap"))
      else do
        config ← parse_config current
        let section =
            add_sections (manager.range (vcenter_map m.spec.failure_domains []))
              (section_of (object_at "vcenter" config))
        write_config cm (set "vcenter" (object section) config)

  unfoldable pub remove_from_section :
      ConfigMap → String → Fields → Option Fields → Exec S ConfigMap
  unfolding write_config delete
  remove_from_section cm server config none = pure cm
  remove_from_section cm server config (some section) =
      write_config cm (set "vcenter" (object (delete server section)) config)

  unfoldable pub remove_source_vcenter_from_config : ConfigMap → String → Exec S ConfigMap
  unfolding remove_from_section parse_config
  remove_source_vcenter_from_config cm server =
      let current = text_of (lookup "config" (entries_of cm.entries)) in
      if current == "" then pure cm else do
        config ← parse_config current
        remove_from_section cm server config (object_at "vcenter" config)

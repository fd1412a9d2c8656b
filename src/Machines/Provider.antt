-- ===== src/Machines/Provider.antt =====
-- `updateMachineSetProviderSpec` and `getVCenterServerFromMachineSet`.
use openshift_vsphere_migrat.Base.{
  String, ◌<>◌, List, [], ◌∷◌, Option, none, some, msg, errorf, Result, ok, err,
}
use openshift_vsphere_migrat.Base.Exec.{wrap_result}
use openshift_vsphere_migrat.Api.{FailureDomain}
use openshift_vsphere_migrat.Machines.Json.{
  Json, Fields, JsonCodec, text, array, object, nil, item, empty, field, set, get, as_text,
  object_at,
}
use openshift_vsphere_migrat.Machines.Types.{MachineSet}

-- `fmt.Sprintf("/%s/vm/%s", datacenter, infraID)`
abbrev pub folder_of : String → String → String
folder_of datacenter infra_id = "/" <> (datacenter <> ("/vm/" <> infra_id))

unfoldable pub workspace_of : FailureDomain → String → Fields
workspace_of fd infra_id = field "server" (text fd.server) (
    field "datacenter" (text fd.topology.datacenter) (
      field "datastore" (text fd.topology.datastore) (
        field "folder" (text (folder_of fd.topology.datacenter infra_id))
          (field "resourcePool" (text fd.topology.resource_pool) empty))))

abbrev pub network_of : String → Json
network_of name =
    object
      (field "devices" (array (item (object (field "networkName" (text name) empty)) nil)) empty)

abbrev pub with_network : List String → Fields → Fields
with_network [] fs = fs
with_network (n ∷ ns) fs = set "network" (network_of n) fs

-- The three keys that both updates write.
unfoldable pub retarget : FailureDomain → String → Fields → Fields
unfolding set workspace_of
retarget fd infra_id fs = with_network fd.topology.networks (
    set "template" (text fd.topology.template)
      (set "workspace" (object (workspace_of fd infra_id)) fs))

abbrev pub and_then {ℓ} : {A B : Type ℓ} → Result A → (A → Result B) → Result B
and_then (ok a) f = f a
and_then (err e) f = err e

abbrev pub raw_of : Option String → Result String
raw_of none = err (errorf (msg "providerSpec.value is nil"))
raw_of (some raw) = ok raw

abbrev pub workspace_in : Option Fields → Result Fields
workspace_in none = err (errorf (msg "workspace not found in providerSpec"))
workspace_in (some fs) = ok fs

abbrev pub server_in : Option String → Result String
server_in none = err (errorf (msg "server not found in workspace"))
server_in (some s) = ok s

module _ (codec : JsonCodec) where
  abbrev pub parsed : MachineSet → Result Fields
  parsed ms =
      and_then (raw_of ms.provider_spec)
        (λ raw. wrap_result (msg "failed to unmarshal providerSpec") (codec.unmarshal raw))

  unfoldable pub update_machine_set_provider_spec :
      MachineSet → FailureDomain → String → Result MachineSet
  unfolding retarget
  update_machine_set_provider_spec ms fd infra_id = and_then (parsed ms) λ fs.
      and_then
        (wrap_result (msg "failed to marshal providerSpec")
          (codec.marshal (retarget fd infra_id fs)))
        (λ raw. ok (record ms { provider_spec = some raw }))

  unfoldable pub get_vcenter_server_from_machine_set : MachineSet → Result String
  unfolding get
  get_vcenter_server_from_machine_set ms = and_then (parsed ms) λ fs.
      and_then (workspace_in (object_at "workspace" fs)) λ ws. server_in (as_text (get "server" ws))

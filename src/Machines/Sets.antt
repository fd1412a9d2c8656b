-- ===== src/Machines/Sets.antt =====
-- The methods of the MachineManager on MachineSets.
use openshift_vsphere_migrat.Base.{
  String, Bool, false, List, [], ◌∷◌, Option, none, some, Message, msg, lit, number, errorf,
  GoError, Result, ok, err, if◌then◌else◌, ◌==◌, string_eq, find, keep,
}
use openshift_vsphere_migrat.Base.Exec.{Exec, pure, raise, ◌>>=◌, wrap_error}
use openshift_vsphere_migrat.Base.Int32.{Int32}
use openshift_vsphere_migrat.Base.Maps.{insert}
use openshift_vsphere_migrat.Api.{FailureDomain, Migration}
use openshift_vsphere_migrat.Machines.Json.{JsonCodec}
use openshift_vsphere_migrat.Machines.Types.{MachineSet, MachineClient, MachineManager, with_client}
use openshift_vsphere_migrat.Machines.Provider.{
  update_machine_set_provider_spec, get_vcenter_server_from_machine_set,
}

abbrev pub domain_label : String
domain_label = "machine.openshift.io/failure-domain"

abbrev pub set_label : String
set_label = "machine.openshift.io/cluster-api-machineset"

-- The first failure domain of a name.
unfoldable pub find_domain : String → List FailureDomain → Option FailureDomain
find_domain name fds = find (λ fd. fd.name == name) fds

-- The deep copy of the template with the new metadata.
unfoldable pub renamed : String → Migration → MachineSet → MachineSet
renamed name m template =
    let domain = m.spec.machine_set_config.failure_domain in
    record template {
      name = name;
      resource_version = "";
      uid = "";
      creation_timestamp = none;
      replicas = some m.spec.machine_set_config.replicas;
      annotations = insert domain_label domain template.annotations;
      labels = insert domain_label domain template.labels;
      selector_labels = insert set_label name template.selector_labels;
      template_labels = insert set_label name template.template_labels;
    }

abbrev pub domain_missing : String → GoError
domain_missing name = errorf (lit "failure domain " ∷ lit name ∷ lit " not found" ∷ [])

abbrev pub template_missing : String → GoError
template_missing name = errorf (
    lit "template not specified in failure domain "
    ∷ lit name
    ∷ lit " - check VmwareCloudFoundationMigration CR topology.template field"
    ∷ [])

-- The filter of `GetMachineSetsByVCenter`: a set whose server cannot be read is left out.
abbrev is_at : String → Result String → Bool
is_at server (ok s) = s == server
is_at server (err e) = false

unfoldable pub at_vcenter : JsonCodec → String → List MachineSet → List MachineSet
at_vcenter codec server sets =
    if server == ""
    then sets
    else keep (λ ms. is_at server (get_vcenter_server_from_machine_set codec ms)) sets

module _ {S : Type 0} (manager : MachineManager S) where
  unfoldable pub create_in :
      MachineClient S → MachineSet → FailureDomain → String → Exec S MachineSet
  create_in client ms fd infra_id =
      if fd.topology.template == "" then raise (template_missing fd.name) else do
        updated ←
            wrap_error (msg "failed to update providerSpec")
              (λ s. (update_machine_set_provider_spec manager.codec ms fd infra_id, s))
        wrap_error (msg "failed to create MachineSet") (client.create_machine_set updated)

  unfoldable pub create_found :
      MachineClient S → MachineSet → String → String → Option FailureDomain → Exec S MachineSet
  unfolding create_in
  create_found client ms domain infra_id none = raise (domain_missing domain)
  create_found client ms domain infra_id (some fd) = create_in client ms fd infra_id

  unfoldable pub create_worker_machine_set :
      String → Migration → MachineSet → String → Exec S MachineSet
  unfolding create_found renamed find_domain
  create_worker_machine_set name m template infra_id =
      with_client
        (λ client.
          create_found client (renamed name m template) m.spec.machine_set_config.failure_domain
            infra_id (find_domain m.spec.machine_set_config.failure_domain m.spec.failure_domains))
        manager.machine_client

  unfoldable pub get_machine_set : String → Exec S MachineSet
  get_machine_set name = with_client (λ client. client.get_machine_set name) manager.machine_client

  unfoldable pub get_machine_sets_by_vcenter : String → Exec S (List MachineSet)
  unfolding at_vcenter
  get_machine_sets_by_vcenter server =
      with_client
        (λ client. do
          sets ← wrap_error (msg "failed to list MachineSets") client.list_machine_sets
          pure (at_vcenter manager.codec server sets))
        manager.machine_client

  unfoldable pub delete_machine_set : String → Exec S (Unit {0})
  delete_machine_set name =
      with_client
        (λ client. wrap_error (msg "failed to delete MachineSet") (client.delete_machine_set name))
        manager.machine_client

  -- `%d` of the counts that the callers pass, which are not negative.
  abbrev replicas_patch : Int32 → Message
  replicas_patch n = lit "{\"spec\":{\"replicas\":" ∷ number n ∷ lit "}}" ∷ []

  unfoldable pub scale_machine_set : String → Int32 → Exec S (Unit {0})
  scale_machine_set name replicas =
      with_client
        (λ client.
          wrap_error (msg "failed to scale MachineSet")
            (client.patch_machine_set name (replicas_patch replicas)))
        manager.machine_client

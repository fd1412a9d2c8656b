-- ===== src/Machines/Targets.antt =====
-- `CreateWorkerMachineSet` of pkg/openshift/machines.go: what it asks the server to create.
use openshift_vsphere_migrat.Base.{
  String, ◌≡◌, refl, ap, ◌∙◌, ◌⊎◌, inl, inr, List, [], ◌∷◌, Option, none, some, msg, GoError,
  wrapped, Result, ok, err, ◌==◌, string_eq, true, Bool-cases,
}
use openshift_vsphere_migrat.Base.Exec.{wrap_error, ◌>>=◌}
use openshift_vsphere_migrat.Base.Maps.{lookup, lookup-insert_self, ne_of_beq}
use openshift_vsphere_migrat.Api.{FailureDomain, Migration}
use openshift_vsphere_migrat.Machines.Json.{
  Fields, JsonCodec, text, object, get, set, get_in, as_object, as_text, object_at, text_at,
  get-set_self, get-set_other,
}
use openshift_vsphere_migrat.Machines.Types.{MachineSet, MachineClient, MachineManager}
use openshift_vsphere_migrat.Machines.Provider.{
  workspace_of, with_network, network_of, retarget, and_then, parsed, workspace_in, server_in,
  update_machine_set_provider_spec, get_vcenter_server_from_machine_set,
}
use openshift_vsphere_migrat.Machines.Sets.{
  domain_label, set_label, find_domain, renamed, template_missing, create_in, create_found,
  create_worker_machine_set,
}

-- JSON keeps the text under the keys of a workspace's server.
abbrev pub KeepsServer : JsonCodec → Type 0
KeepsServer codec =
    (fs : Fields) (raw : String)
    → codec.marshal fs ≡ ok raw
    → (fs' : Fields) × (codec.unmarshal raw ≡ ok fs')
      × (text_at "workspace" "server" fs' ≡ text_at "workspace" "server" fs)

workspace-with_network :
    (ns : List String) (fs : Fields) → get "workspace" (with_network ns fs) ≡ get "workspace" fs
workspace-with_network [] fs = refl
workspace-with_network (n ∷ ns) fs =
    get-set_other "network" "workspace" (network_of n) fs (ne_of_beq "network" "workspace" refl)

server-retarget :
    (fd : FailureDomain) (infra_id : String) (fs : Fields)
    → text_at "workspace" "server" (retarget fd infra_id fs) ≡ some fd.server
unfolding retarget text_at
server-retarget fd infra_id fs =
    ap (λ o. as_text (get_in "server" (as_object o)))
      (workspace-with_network fd.topology.networks _
        ∙ get-set_other "template" "workspace" (text fd.topology.template)
            (set "workspace" (object (workspace_of fd infra_id)) fs)
            (ne_of_beq "template" "workspace" refl)
        ∙ get-set_self "workspace" (object (workspace_of fd infra_id)) fs)
    ∙ first
  where
    first : as_text (get "server" (workspace_of fd infra_id)) ≡ some fd.server
    first = refl

server_read :
    (o : Option Fields) (s : String)
    → as_text (get_in "server" o) ≡ some s
    → and_then (workspace_in o) (λ ws. server_in (as_text (get "server" ws))) ≡ ok s
server_read none s h = cc
server_read (some fs) s h = ap server_in h

module _ (codec : JsonCodec) (keeps : KeepsServer codec) (ms : MachineSet) (fd : FailureDomain)
    (infra_id : String) where
  -- The update fails, or the updated set reads back as one of the failure domain's vCenter.
  abbrev Updated : Type 0
  Updated =
      ((e : GoError) × (update_machine_set_provider_spec codec ms fd infra_id ≡ err e))
      ⊎ ((raw : String) × (update_machine_set_provider_spec codec ms fd infra_id
            ≡ ok (record ms { provider_spec = some raw }))
          × (get_vcenter_server_from_machine_set codec (record ms { provider_spec = some raw })
              ≡ ok fd.server))

  marshalled :
      (fs : Fields)
      → parsed codec ms ≡ ok fs
      → (r : Result String) → codec.marshal (retarget fd infra_id fs) ≡ r
      → Updated
  unfolding update_machine_set_provider_spec get_vcenter_server_from_machine_set
  marshalled fs p (err e) q =
      inl (wrapped (msg "failed to marshal providerSpec") e, rw p (rw q refl))
  marshalled fs p (ok raw) q =
      let (fs', u, texts) = keeps (retarget fd infra_id fs) raw q in
      inr (
        raw,
        rw p (rw q refl),
        rw u (
            server_read (object_at "workspace" fs') fd.server
              (read fs' (texts ∙ server-retarget fd infra_id fs))),
      )
    where
      read :
          (fs' : Fields)
          → text_at "workspace" "server" fs' ≡ some fd.server
          → as_text (get_in "server" (object_at "workspace" fs')) ≡ some fd.server
      read fs' h = unfold text_at in h

  unparsed : (e : GoError) → parsed codec ms ≡ err e → Updated
  unfolding update_machine_set_provider_spec
  unparsed e p = inl (e, rw p refl)

  update_lem : Updated
  update_lem = updated (parsed codec ms) refl
    where
      updated : (r : Result Fields) → parsed codec ms ≡ r → Updated
      updated (err e) q = unparsed e q
      updated (ok fs) q = marshalled fs q (codec.marshal (retarget fd infra_id fs)) refl

-- A worker set of the name for the migration's failure domain: its size, the labels by which the
-- machine API finds its machines, and the vCenter on which they are made.
pub record IsTargeted (codec : JsonCodec) (name : String) (m : Migration) (fd : FailureDomain)
    (ms : MachineSet) : Type 0 where
  pub named : ms.name ≡ name
  pub sized : ms.replicas ≡ some m.spec.machine_set_config.replicas
  pub selects : lookup set_label ms.selector_labels ≡ some name
  pub labels_machines : lookup set_label ms.template_labels ≡ some name
  pub labelled : lookup domain_label ms.labels ≡ some m.spec.machine_set_config.failure_domain
  pub annotated : lookup domain_label ms.annotations ≡ some m.spec.machine_set_config.failure_domain
  pub placed : get_vcenter_server_from_machine_set codec ms ≡ ok fd.server

module _ {S : Type 0} (manager : MachineManager S) (client : MachineClient S)
    (keeps : KeepsServer manager.codec) (name : String) (m : Migration) (template : MachineSet)
    (infra_id : String) where
  abbrev domain : String
  domain = m.spec.machine_set_config.failure_domain

  -- No failure domain has the name, or the first that has it names no template, or the provider spec
  -- of the template cannot be edited.
  abbrev pub Hindered : Type 0
  Hindered =
      (find_domain domain m.spec.failure_domains ≡ none)
      ⊎ ((fd : FailureDomain) × (find_domain domain m.spec.failure_domains ≡ some fd)
          × (((fd.topology.template == "") ≡ true)
              ⊎ ((e : GoError) × (update_machine_set_provider_spec manager.codec
                      (renamed name m template) fd infra_id
                    ≡ err e))))

  -- Nothing was asked of the server, or the creation of such a set.
  abbrev pub AsksForTarget : (S → Result MachineSet × S) → S → Type 0
  AsksForTarget call s =
      (Hindered × (e : GoError) × (call s ≡ (err e, s)))
      ⊎ ((fd : FailureDomain) × (ms : MachineSet) × (find_domain domain m.spec.failure_domains
            ≡ some fd)
          × IsTargeted manager.codec name m fd ms
          × (call s
              ≡ wrap_error (msg "failed to create MachineSet") (client.create_machine_set ms) s))

  placed_in :
      (fd : FailureDomain)
      → find_domain domain m.spec.failure_domains ≡ some fd
      → (s : S) → AsksForTarget (create_in manager client (renamed name m template) fd infra_id) s
  unfolding create_in renamed ◌>>=◌
  placed_in fd q s = elim (Bool-cases (fd.topology.template == "")) [
    | inl e ↦ inl (inr (fd, q, inl e), template_missing fd.name, rw e refl)
    | inr e ↦ elim (update_lem manager.codec keeps (renamed name m template) fd infra_id) [
      | inl (err', u) ↦ inl (
        inr (fd, q, inr (err', u)),
        wrapped (msg "failed to update providerSpec") err',
        rw e (rw u refl),
      )
      | inr (raw, u, server) ↦ inr (
        fd,
        record (renamed name m template) { provider_spec = some raw },
        q,
        record {
          named = refl;
          sized = refl;
          selects = lookup-insert_self set_label name template.selector_labels;
          labels_machines = lookup-insert_self set_label name template.template_labels;
          labelled = lookup-insert_self domain_label domain template.labels;
          annotated = lookup-insert_self domain_label domain template.annotations;
          placed = server;
        },
        rw e (rw u refl),
      )
    ]
  ]

  found_lem :
      (o : Option FailureDomain)
      → find_domain domain m.spec.failure_domains ≡ o
      → (s : S)
      → AsksForTarget (create_found manager client (renamed name m template) domain infra_id o) s
  unfolding create_found
  found_lem none q s = inl (inl q, _, refl)
  found_lem (some fd) q s = placed_in fd q s

  -- If JSON keeps the server of a workspace, then the creation of a worker set asks the server to create
  -- a set of that name, with the migration's number of replicas and its failure domain's labels, whose
  -- selector and whose machines carry the set's name, and whose provider spec names the vCenter of the
  -- first failure domain of that name; it returns an error and asks nothing of the server only where
  -- there is no such failure domain, where that names no template, or where the provider spec of the
  -- template cannot be read or written.
  pub create_worker_machine_set-targets :
      manager.machine_client ≡ some client
      → (s : S) → AsksForTarget (create_worker_machine_set manager name m template infra_id) s
  unfolding create_worker_machine_set
  create_worker_machine_set-targets present s =
      rw present (found_lem (find_domain domain m.spec.failure_domains) refl s)

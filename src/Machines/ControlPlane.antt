-- ===== src/Machines/ControlPlane.antt =====
-- The methods of the MachineManager on the ControlPlaneMachineSet.
use openshift_vsphere_migrat.Base.{
  ℕ, zero, suc, ◌+◌, ltb, context_canceled, String, Bool, false, ◌&&◌, List, [], ◌∷◌, Option, none,
  some, Message, msg, GoError, errorf, panicked, wrapped, Result, ok, err, is_not_found,
  if◌then◌else◌, ◌==◌, string_eq, nat_eq, leb,
}
use openshift_vsphere_migrat.Base.Exec.{Exec, pure, raise, attempt, ◌>>=◌, ◌>>◌, wrap_error}
use openshift_vsphere_migrat.Base.Int32.{Int32, wrap, lt}
use openshift_vsphere_migrat.Api.{Duration, FailureDomain, Migration}
use openshift_vsphere_migrat.Ticker.{wait}
use openshift_vsphere_migrat.Machines.Json.{Json, text, object, set}
use openshift_vsphere_migrat.Machines.Types.{
  Cpms, CpmsStatus, CpmsClient, MachineManager, with_dynamic, machine_api_namespace, cpms_name,
}
use openshift_vsphere_migrat.Machines.Provider.{retarget, and_then}
use openshift_vsphere_migrat.Machines.Sets.{find_domain, domain_missing}

-- The first failure domain gets the name, if there is one and it is an object.
unfoldable pub rename_first : String → List Json → List Json
unfolding set
rename_first name (object fs ∷ ds) = object (set "name" (text name) fs) ∷ ds
rename_first name [] = []
rename_first name (d ∷ ds) = d ∷ ds

-- `%w` of a nil error.
abbrev missing : String → GoError
missing what = wrapped (msg what) (errorf (msg "%!w(<nil>)"))

abbrev present : {A : Type 0} → String → Result (Option A) → Result A
present what (err e) = err (wrapped (msg what) e)
present what (ok none) = err (missing what)
present what (ok (some a)) = ok a

-- The deep copy that `updateCPMSProviderSpec` edits.
unfoldable pub edited : Cpms → FailureDomain → String → Result Cpms
unfolding rename_first retarget
edited cpms fd infra_id =
    and_then (present "failed to get CPMS failureDomains" cpms.failure_domains) λ ds.
      and_then (present "failed to get CPMS providerSpec" cpms.provider_spec) λ fs.
        ok (record cpms {
          failure_domains = ok (some (rename_first fd.name ds));
          provider_spec = ok (some (retarget fd infra_id fs));
          state = ok (some "Active");
        })

-- `updateCPMSProviderSpec` returns only an error: the copy is dropped.
unfoldable pub update_cpms_provider_spec : Cpms → FailureDomain → String → Result (Unit {0})
unfolding edited
update_cpms_provider_spec cpms fd infra_id = and_then (edited cpms fd infra_id) λ copy. ok tt

-- The object that `UpdateCPMSFailureDomain` sends.
unfoldable pub activated : String → List Json → Cpms → Cpms
unfolding rename_first
activated domain ds cpms = record cpms {
  failure_domains = ok (some (rename_first domain ds));
  state = ok (some "Active");
}

-- The template with the metadata of `CreateControlPlaneMachineSet`.
unfoldable pub as_new : Cpms → Cpms
as_new template = record template {
  name = cpms_name;
  namespace = machine_api_namespace;
  resource_version = "";
  uid = "";
}

-- `replicas`, `updatedReplicas` and `readyReplicas`, converted to int32.
unfoldable pub rollout_of : CpmsStatus → Bool × Int32 × Int32 × Int32
rollout_of status =
    let replicas = wrap status.replicas in
    let updated = wrap status.updated_replicas in
    let ready = wrap status.ready_replicas in
    (lt 0 replicas && (replicas == updated && replicas == ready), replicas, updated, ready)

abbrev status_of : Result (Option CpmsStatus) → Result CpmsStatus
status_of (err e) = err (errorf (msg "failed to get CPMS status"))
status_of (ok none) = err (errorf (msg "failed to get CPMS status"))
status_of (ok (some status)) = ok status

-- Without an observed generation the controller has not processed anything yet.
abbrev is_observed : ℕ → Result (Option ℕ) → Bool
is_observed generation (err e) = false
is_observed generation (ok none) = false
is_observed generation (ok (some observed)) = leb generation observed

abbrev is_inactive : Result (Option String) → Bool
is_inactive (err e) = false
is_inactive (ok none) = false
is_inactive (ok (some state)) = state == "Inactive"

abbrev when : Bool → Option (Unit {0})
when b = if b then some tt else none

-- `errors.IsNotFound(err)` of the lookup's error, which may be nil.
abbrev is_gone : Result Cpms → Bool
is_gone (ok cpms) = false
is_gone (err e) = is_not_found e

module _ {S : Type 0} (manager : MachineManager S) where
  unfoldable pub get_control_plane_machine_set : Exec S Cpms
  get_control_plane_machine_set =
      with_dynamic (λ client. client.get cpms_name) manager.dynamic_client

  unfoldable pub delete_control_plane_machine_set : Exec S (Unit {0})
  delete_control_plane_machine_set =
      with_dynamic (λ client. client.delete cpms_name) manager.dynamic_client

  -- The waits use the client without a test for nil: their first look panics.
  unfoldable pub nil_wait : ℕ → Message → Duration → Exec S (Unit {0})
  nil_wait zero late timeout s = (err context_canceled, s)
  nil_wait (suc turns) late timeout s =
      let s' = manager.ticker.tick s in
      if ltb (manager.ticker.now s + timeout) (manager.ticker.now s')
      then (err (errorf late), s')
      else (err (panicked "invalid memory address or nil pointer dereference"), s')

  unfoldable pub wait_with :
      (CpmsClient S → Exec S (Option (Unit {0})))
      → Message
      → Duration
      → Option (CpmsClient S)
      → Exec S (Unit {0})
  unfolding nil_wait
  wait_with look late timeout none = nil_wait manager.turns late timeout
  wait_with look late timeout (some client) =
      wait manager.ticker (look client) late timeout manager.turns

  -- Any error but NotFound goes on.
  unfoldable pub deletion_look : CpmsClient S → Exec S (Option (Unit {0}))
  deletion_look client = do r ← attempt (client.get cpms_name); pure (when (is_gone r))

  unfoldable pub wait_for_cpms_deletion : Duration → Exec S (Unit {0})
  unfolding deletion_look wait_with
  wait_for_cpms_deletion timeout =
      wait_with deletion_look (msg "timeout waiting for CPMS deletion") timeout
        manager.dynamic_client

  unfoldable pub inactive_look : CpmsClient S → Exec S (Option (Unit {0}))
  inactive_look client = do cpms ← client.get cpms_name; pure (when (is_inactive cpms.state))

  unfoldable pub wait_for_cpms_inactive : Duration → Exec S (Unit {0})
  unfolding inactive_look wait_with
  wait_for_cpms_inactive timeout =
      wait_with inactive_look (msg "timeout waiting for CPMS to become Inactive") timeout
        manager.dynamic_client

  unfoldable pub update_cpms_failure_domain : Migration → String → Exec S (Unit {0})
  unfolding activated
  update_cpms_failure_domain m infra_id =
      with_dynamic
        (λ client. do
          cpms ← wrap_error (msg "failed to get CPMS") (client.get cpms_name)
          ds ← (λ s. (present "failed to get CPMS failureDomains" cpms.failure_domains, s))
          wrap_error (msg "failed to update CPMS") (
              client.update
                (activated m.spec.control_plane_machine_set_config.failure_domain ds cpms))
          pure tt)
        manager.dynamic_client

  unfoldable pub create_at :
      CpmsClient S → Cpms → String → String → Option FailureDomain → Exec S (Unit {0})
  unfolding update_cpms_provider_spec as_new
  create_at client template domain infra_id none = raise (domain_missing domain)
  create_at client template domain infra_id (some fd) = do
    wrap_error (msg "failed to update CPMS providerSpec")
        (λ s. (update_cpms_provider_spec template fd infra_id, s))
    wrap_error (msg "failed to create CPMS") (client.create (as_new template))
    pure tt

  -- The template is an object; another value is refused before anything else is done.
  unfoldable pub create_control_plane_machine_set :
      Migration → Option Cpms → String → Exec S (Unit {0})
  unfolding create_at find_domain
  create_control_plane_machine_set m template infra_id =
      with_dynamic
        (λ client. elim template [
          | none ↦ raise (errorf (msg "invalid CPMS template provided"))
          | some t ↦
              create_at client t m.spec.control_plane_machine_set_config.failure_domain infra_id (
                find_domain m.spec.control_plane_machine_set_config.failure_domain
                  m.spec.failure_domains)
        ])
        manager.dynamic_client

  unfoldable pub check_control_plane_rollout_status : Exec S (Bool × Int32 × Int32 × Int32)
  unfolding rollout_of
  check_control_plane_rollout_status =
      with_dynamic
        (λ client. do
          cpms ← wrap_error (msg "failed to get CPMS") (client.get cpms_name)
          status ← (λ s. (status_of cpms.status, s))
          pure (rollout_of status))
        manager.dynamic_client

  unfoldable pub is_cpms_generation_observed : Exec S Bool
  is_cpms_generation_observed =
      with_dynamic
        (λ client. do
          cpms ← wrap_error (msg "failed to get CPMS") (client.get cpms_name)
          pure (is_observed cpms.generation cpms.observed_generation))
        manager.dynamic_client

  unfoldable pub rollout_look : Exec S (Option (Unit {0}))
  rollout_look = do r ← check_control_plane_rollout_status; pure (when r.0)

  unfoldable pub wait_for_control_plane_rollout : Duration → Exec S (Unit {0})
  unfolding rollout_look
  wait_for_control_plane_rollout timeout =
      with_dynamic
        (λ client.
          wait manager.ticker rollout_look (msg "timeout waiting for control plane rollout") timeout
            manager.turns)
        manager.dynamic_client

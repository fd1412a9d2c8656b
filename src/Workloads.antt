-- ===== src/Workloads.antt =====
-- pkg/openshift/workloads.go: the WorkloadManager.
pub mod Termination
use openshift_vsphere_migrat.Base.{
  string_eq, nat_eq, ◌+◌, ℕ, String, Bool, not, ◌&&◌, List, [], ◌∷◌, ◌++◌, Option, none, some,
  Message, msg, lit, number, errorf, wrapped, context_canceled, zero, suc, ltb, Result, ok, err,
  is_not_found, if◌then◌else◌, ◌==◌, any, keep, count,
}
use openshift_vsphere_migrat.Base.Exec.{Exec, pure, raise, attempt, ◌>>=◌, ◌>>◌, wrap_error}
use openshift_vsphere_migrat.Base.Int32.{Int32, lt}
use openshift_vsphere_migrat.Api.{Time, Duration, ScaledResource}
use openshift_vsphere_migrat.Kube.{Workload, WorkloadClient, Pod, Client}
use openshift_vsphere_migrat.Ticker.{wait}
use openshift_vsphere_migrat.Volumes.{uses_claim, find_pods_using_pvc}

-- `podTemplateUsesPVC`
unfoldable pub pod_template_uses_pvc : Workload → String → Bool
pod_template_uses_pvc workload name = uses_claim name workload.volumes

-- `hasOwnerOfKind`
unfoldable pub has_owner_of_kind : List String → String → Bool
has_owner_of_kind owners kind = any (λ owner. owner == kind) owners

-- A StatefulSet is appended once for its pod template and once for its claim templates.
unfoldable pub matching_stateful_sets : String → List Workload → List Workload
unfolding pod_template_uses_pvc
matching_stateful_sets name [] = []
matching_stateful_sets name (w ∷ ws) =
    (if pod_template_uses_pvc w name then w ∷ [] else [])
    ++ (if any (λ t. t == name) w.volume_claim_templates then w ∷ [] else [])
    ++ matching_stateful_sets name ws

unfoldable pub is_standalone_using : String → Workload → Bool
unfolding pod_template_uses_pvc has_owner_of_kind
is_standalone_using name w =
    not (has_owner_of_kind w.owner_kinds "Deployment") && pod_template_uses_pvc w name

-- The replicas of a workload that runs.
unfoldable pub running_replicas : Option Int32 → Option Int32
running_replicas none = none
running_replicas (some n) = if lt 0 n then some n else none

abbrev scaled_resource : String → Workload → Int32 → ScaledResource
scaled_resource kind w replicas = record {
  kind = kind;
  name = w.name;
  namespace = w.namespace;
  original_replicas = replicas;
}

abbrev pub is_active : Pod → Bool
is_active pod = not (pod.phase == "Succeeded") && not (pod.phase == "Failed")

module _ {S : Type 0} (client : Client S) where
  abbrev list_using : WorkloadClient S → (Workload → Bool) → String → Exec S (List Workload)
  list_using api test namespace = do ws ← api.list namespace; pure (keep test ws)

  unfoldable pub find_deployments_using_pvc : String → String → Exec S (List Workload)
  unfolding pod_template_uses_pvc
  find_deployments_using_pvc namespace name =
      list_using client.deployments (λ w. pod_template_uses_pvc w name) namespace

  unfoldable pub find_stateful_sets_using_pvc : String → String → Exec S (List Workload)
  find_stateful_sets_using_pvc namespace name = do
    ws ← client.stateful_sets.list namespace
    pure (matching_stateful_sets name ws)

  unfoldable pub find_standalone_replica_sets_using_pvc : String → String → Exec S (List Workload)
  find_standalone_replica_sets_using_pvc namespace name =
      list_using client.replica_sets (is_standalone_using name) namespace

  -- What follows the `Get` of `scaleDeployment`, `scaleStatefulSet` and `scaleReplicaSet`, three
  -- copies of one text: a workload that is gone is nothing to scale.
  scale_found : WorkloadClient S → String → Int32 → Result Workload → Exec S (Unit {0})
  scale_found api namespace replicas (err e) = if is_not_found e then pure tt else raise e
  scale_found api namespace replicas (ok w) =
      api.update namespace (record w { replicas = some replicas })

  unfoldable pub scale : WorkloadClient S → String → String → Int32 → Exec S (Unit {0})
  unfolding scale_found
  scale api namespace name replicas = do
    r ← attempt (api.get namespace name)
    scale_found api namespace replicas r

  unfoldable pub scale_deployment : String → String → Int32 → Exec S (Unit {0})
  scale_deployment = scale client.deployments

  unfoldable pub scale_stateful_set : String → String → Int32 → Exec S (Unit {0})
  scale_stateful_set = scale client.stateful_sets

  unfoldable pub scale_replica_set : String → String → Int32 → Exec S (Unit {0})
  scale_replica_set = scale client.replica_sets

  -- One of the three loops of `ScaleDownForPV`, over the workloads that run.
  scale_down_all :
      String
      → Message
      → (String → String → Int32 → Exec S (Unit {0}))
      → List Workload
      → List ScaledResource
      → Exec S (List ScaledResource)
  scale_down_all kind what scale_one [] scaled = pure scaled
  scale_down_all kind what scale_one (w ∷ ws) scaled = elim (running_replicas w.replicas) [
    | none ↦ scale_down_all kind what scale_one ws scaled
    | some n ↦
        wrap_error (what ++ lit w.name ∷ []) (scale_one w.namespace w.name 0)
        >> scale_down_all kind what scale_one ws (scaled ++ scaled_resource kind w n ∷ [])
  ]

  -- The caller drops the list that comes beside an error, so only the error is kept.
  unfoldable pub scale_down_for_pv : String → String → Exec S (List ScaledResource)
  unfolding scale_down_all scale_deployment scale_stateful_set scale_replica_set
  scale_down_for_pv namespace name = do
    deployments ←
        wrap_error (msg "failed to find deployments") (find_deployments_using_pvc namespace name)
    scaled ←
        scale_down_all "Deployment" (msg "failed to scale deployment ") scale_deployment deployments
          []
    stateful_sets ←
        wrap_error (msg "failed to find statefulsets") (find_stateful_sets_using_pvc namespace name)
    scaled ←
        scale_down_all "StatefulSet" (msg "failed to scale statefulset ") scale_stateful_set
          stateful_sets scaled
    replica_sets ←
        wrap_error (msg "failed to find replicasets")
          (find_standalone_replica_sets_using_pvc namespace name)
    scale_down_all "ReplicaSet" (msg "failed to scale replicaset ") scale_replica_set replica_sets
        scaled

  unfoldable pub restore_one : ScaledResource → Exec S (Unit {0})
  unfolding scale_deployment scale_stateful_set scale_replica_set
  restore_one r =
      if r.kind == "Deployment"
      then scale_deployment r.namespace r.name r.original_replicas
      else if r.kind == "StatefulSet"
      then scale_stateful_set r.namespace r.name r.original_replicas
      else if r.kind == "ReplicaSet"
      then scale_replica_set r.namespace r.name r.original_replicas
      else raise (errorf (lit "unknown resource kind: " ∷ lit r.kind ∷ []))

  abbrev failures : Result (Unit {0}) → ℕ
  failures (ok u) = 0
  failures (err e) = 1

  -- The loop goes on after an error. It returns how many there were.
  unfoldable pub restore_all : List ScaledResource → S → ℕ × S
  unfolding restore_one
  restore_all [] s = (0, s)
  restore_all (r ∷ rs) s =
      let (result, s') = restore_one r s in
      let (n, s'') = restore_all rs s' in (failures result + n, s'')

  unfoldable pub restore_workloads : List ScaledResource → Exec S (Unit {0})
  unfolding restore_all
  restore_workloads rs s =
      let (n, s') = restore_all rs s in
      if n == 0
      then (ok tt, s')
      else (err (errorf (lit "failed to restore " ∷ number n ∷ lit " workloads" ∷ [])), s')

  -- One look of `WaitForPodsTerminated`.
  unfoldable pub terminated_look : String → String → Exec S (Option (Unit {0}))
  terminated_look namespace name = do
    pods ← find_pods_using_pvc client namespace name
    pure (if count is_active pods == 0 then some tt else none)

  -- `tick` waits for the ticker. After `turns` ticks the context is done.
  unfoldable pub wait_for_pods_terminated :
      (S → S) → ℕ → String → String → Duration → Exec S (Unit {0})
  unfolding terminated_look
  wait_for_pods_terminated tick turns namespace name timeout =
      wait (record { now = client.now; tick = tick }) (terminated_look namespace name)
        (msg "timeout waiting for pods to terminate") timeout turns

  abbrev is_ready : WorkloadClient S → ScaledResource → Exec S Bool
  is_ready api r = do w ← api.get r.namespace r.name; pure (w.ready_replicas == r.original_replicas)

  -- `isWorkloadReady`
  unfoldable pub is_workload_ready : ScaledResource → Exec S Bool
  is_workload_ready r =
      if r.kind == "Deployment"
      then is_ready client.deployments r
      else if r.kind == "StatefulSet"
      then is_ready client.stateful_sets r
      else if r.kind == "ReplicaSet"
      then is_ready client.replica_sets r
      else raise (errorf (lit "unknown resource kind: " ∷ lit r.kind ∷ []))

  abbrev after_delete : Pod → Exec S (Unit {0}) → Result (Unit {0}) → Exec S (Unit {0})
  after_delete pod rest (ok u) = rest
  after_delete pod rest (err e) =
      if is_not_found e
      then rest
      else raise (wrapped (lit "failed to delete pod " ∷ lit pod.name ∷ []) e)

  delete_pods : List Pod → Exec S (Unit {0})
  delete_pods [] = pure tt
  delete_pods (pod ∷ pods) = do
    r ← attempt (client.delete_pod pod.namespace pod.name)
    after_delete pod (delete_pods pods) r

  -- `DeletePodsUsingPVC`
  unfoldable pub delete_pods_using_pvc : String → String → Exec S (Unit {0})
  unfolding delete_pods
  delete_pods_using_pvc namespace name = do
    pods ← wrap_error (msg "failed to find pods") (find_pods_using_pvc client namespace name)
    delete_pods pods

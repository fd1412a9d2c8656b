-- ===== src/Pods.antt =====
-- pkg/openshift/pods.go: the PodManager.
use openshift_vsphere_migrat.Base.{
  ℕ, String, Bool, ◌&&◌, List, [], ◌∷◌, ◌++◌, Option, none, some, Message, msg, lit, number, ok,
  if◌then◌else◌, ◌==◌, string_eq, nat_eq, ltb, any, count, length,
}
use openshift_vsphere_migrat.Base.Exec.{Exec, pure, attempt, ◌>>=◌, ◌>>◌, wrap_error}
use openshift_vsphere_migrat.Api.{Duration}
use openshift_vsphere_migrat.Ticker.{Ticker, wait}

-- Conditions by type and status.
pub record RunningPod : Type 0 where
  pub name : String
  pub phase : String
  pub conditions : List (String × String)

-- Pods by namespace and one label.
pub record PodClient (S : Type 0) : Type 0 where
  pub list : String → String × String → Exec S (List RunningPod)
  pub delete : String → String → Exec S (Unit {0})
  pub ticker : Ticker S

abbrev pub is_pod_ready : RunningPod → Bool
is_pod_ready pod =
    pod.phase == "Running" && any (λ c. c.0 == "Ready" && c.1 == "True") pod.conditions

-- The pods of the four checks, and the one that is restarted only.
abbrev pub cloud_controller : String × (String × String)
cloud_controller =
    ("openshift-cloud-controller-manager", ("k8s-app", "vsphere-cloud-controller-manager"))

abbrev pub kube_controller : String × (String × String)
kube_controller = ("openshift-kube-controller-manager", ("app", "kube-controller-manager"))

abbrev pub machine_api : String × (String × String)
machine_api = ("openshift-machine-api", ("api", "clusterapi"))

abbrev pub csi_controller : String × (String × String)
csi_controller = ("openshift-cluster-csi-drivers", ("app", "vmware-vsphere-csi-driver-controller"))

abbrev pub csi_node : String × (String × String)
csi_node = ("openshift-cluster-csi-drivers", ("app", "vmware-vsphere-csi-driver-node"))

-- Ready pods, and all.
pub record PodCounts : Type 0 where
  pub ready : ℕ
  pub total : ℕ

-- `VSpherePodsStatus`
pub record VspherePodsStatus : Type 0 where
  pub all_ready : Bool
  pub cloud_controller : PodCounts
  pub machine_api : PodCounts
  pub csi_controller : PodCounts
  pub csi_node : PodCounts
  pub not_ready_reason : Message

abbrev pub all_up : PodCounts → Bool
all_up c = c.ready == c.total && ltb 0 c.total

-- The first reason is kept.
abbrev reason_of : Message → PodCounts → Message → Message
reason_of what c (p ∷ ps) = p ∷ ps
reason_of what c [] =
    if all_up c
    then []
    else what ++ lit ": " ∷ number c.ready ∷ lit "/" ∷ number c.total ∷ lit " ready" ∷ []

module _ {S : Type 0} (client : PodClient S) (turns : ℕ) where
  unfoldable pub delete_each : String → List RunningPod → S → S
  delete_each namespace [] s = s
  delete_each namespace (pod ∷ pods) s =
      delete_each namespace pods (client.delete namespace pod.name s).1

  -- The pods that are found are counted, whether they could be deleted or not.
  unfoldable pub delete_pods_by_label : String × (String × String) → Exec S ℕ
  unfolding delete_each
  delete_pods_by_label (namespace, label) = do
    pods ← wrap_error (msg "failed to list pods") (client.list namespace label)
    (λ s. (ok (length pods), delete_each namespace pods s))

  unfoldable pub get_pod_ready_count : String × (String × String) → Exec S PodCounts
  get_pod_ready_count (namespace, label) = do
    pods ← client.list namespace label
    pure (record { ready = count is_pod_ready pods; total = length pods })

  unfoldable pub pods_look : String × (String × String) → Exec S (Option (Unit {0}))
  unfolding get_pod_ready_count
  pods_look app = do
    counts ← get_pod_ready_count app
    pure (if all_up counts then some tt else none)

  unfoldable pub wait_for_pods_ready : String × (String × String) → Duration → Exec S (Unit {0})
  unfolding pods_look
  wait_for_pods_ready app timeout =
      wait client.ticker (pods_look app) (msg "timeout waiting for pods to be ready") timeout turns

  -- Errors are logged only.
  unfoldable pub restart_vsphere_pods : Exec S (Unit {0})
  unfolding delete_pods_by_label
  restart_vsphere_pods = do
    attempt (delete_pods_by_label cloud_controller)
    attempt (delete_pods_by_label kube_controller)
    attempt (delete_pods_by_label machine_api)
    attempt (delete_pods_by_label csi_controller)
    attempt (delete_pods_by_label csi_node)
    pure tt

  unfoldable pub check_vsphere_pods_ready : Exec S VspherePodsStatus
  unfolding get_pod_ready_count
  check_vsphere_pods_ready = do
    ccm ←
        wrap_error (msg "failed to check cloud controller manager pods")
          (get_pod_ready_count cloud_controller)
    mapi ← wrap_error (msg "failed to check machine API pods") (get_pod_ready_count machine_api)
    ctrl ←
        wrap_error (msg "failed to check CSI controller pods") (get_pod_ready_count csi_controller)
    node ← wrap_error (msg "failed to check CSI node pods") (get_pod_ready_count csi_node)
    pure (record {
      all_ready = all_up ccm && (all_up mapi && (all_up ctrl && all_up node));
      cloud_controller = ccm;
      machine_api = mapi;
      csi_controller = ctrl;
      csi_node = node;
      not_ready_reason = reason_of (msg "CSI node") node (
          reason_of (msg "CSI controller") ctrl (
            reason_of (msg "machine API") mapi
              (reason_of (msg "cloud controller manager") ccm [])));
    })

  unfoldable pub wait_for_vsphere_pods_ready : Duration → Exec S (Unit {0})
  unfolding wait_for_pods_ready
  wait_for_vsphere_pods_ready timeout = do
    wrap_error (msg "cloud controller manager pods not ready")
        (wait_for_pods_ready cloud_controller timeout)
    wrap_error (msg "machine API controller pods not ready")
        (wait_for_pods_ready machine_api timeout)
    wrap_error (msg "CSI driver controller pods not ready")
        (wait_for_pods_ready csi_controller timeout)
    wrap_error (msg "CSI driver node pods not ready") (wait_for_pods_ready csi_node timeout)
    pure tt

-- ===== src/Tests/Workloads.antt =====
-- The wait for pods on the concrete cluster.
use openshift_vsphere_migrat.Base.{
  ◌+◌, String, ◌≡◌, refl, [], ◌∷◌, some, ok, if◌then◌else◌, ltb, arith,
}
use openshift_vsphere_migrat.Base.Exec.{◌>>=◌}
use openshift_vsphere_migrat.Kube.{Pod, Client}
use openshift_vsphere_migrat.Volumes.{find_pods_using_pvc}
use openshift_vsphere_migrat.Workloads.{wait_for_pods_terminated}
use openshift_vsphere_migrat.Workloads.Termination.{
  ShowsTerminated, KeepsTicks, wait_for_pods_terminated-ShowsTerminated,
}
use openshift_vsphere_migrat.Tests.World.{World, world, client}

abbrev pod : String → Pod
pod phase = record { name = "app-0"; namespace = "app"; volumes = some "data" ∷ []; phase = phase }

-- The pod runs for twelve seconds.
abbrev pod_client : Client World
pod_client = record client {
  list_pods = λ namespace s.
      (ok (pod (if ltb s.clock 12000000000 then "Running" else "Succeeded") ∷ []), s);
}

abbrev tick : World → World
tick s = record s { clock = s.clock + 5000000000 }

wait_for_pods_terminated-ShowsTerminated_example :
    ShowsTerminated pod_client tick "app" "data"
      (wait_for_pods_terminated pod_client tick 40 "app" "data" 60000000000 world)
wait_for_pods_terminated-ShowsTerminated_example =
    wait_for_pods_terminated-ShowsTerminated pod_client tick "app" "data" 40 60000000000 world

listing-clock : (s : World) → (find_pods_using_pvc pod_client "app" "data" s).1.clock ≡ s.clock
unfolding find_pods_using_pvc ◌>>=◌
listing-clock s = refl

ticks : KeepsTicks pod_client tick "app" "data" 5000000000
ticks = (λ s. omega (arith, listing-clock s), λ s. omega arith)

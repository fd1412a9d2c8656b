-- ===== src/Phases/ScaleOldMachines/Resumed.antt =====
-- A resumed execution of pkg/controller/phases/scale_old.go.
use openshift_vsphere_migrat.Base.{
  String, ◌≡◌, Bool, false, List, [], ◌∷◌, Option, none, some, if◌then◌else◌, ltb, ◌-◌,
}
use openshift_vsphere_migrat.Base.Exec.{Exec}
use openshift_vsphere_migrat.Base.Int32.{Int32, lt}
use openshift_vsphere_migrat.Api.{Time, PhaseStatus}
use openshift_vsphere_migrat.Machines.Types.{MachineSet}
use openshift_vsphere_migrat.Phases.Managers.{PhaseExecutor}
use openshift_vsphere_migrat.Phases.ScaleOldMachines.{added, scale_old_machines_timeout}

module _ {S : Type 0} (executor : PhaseExecutor S) (s : S) where
  -- What the checks count in the world `s`: an error adds nothing.
  unfoldable pub counted : (String → Exec S (Bool × Int32)) → List MachineSet → Int32 → Int32
  counted check [] total = total
  counted check (ms ∷ rest) total = counted check rest (added total (check ms.name s).0)

  abbrev pub Reads : (String → Exec S (Bool × Int32)) → Type 0
  Reads check = (name : String) → (check name s).1 ≡ s

  -- The phase has not run for longer than its timeout.
  abbrev pub InTime : Option Time → Type 0
  InTime none = Unit
  InTime (some started) =
      ltb scale_old_machines_timeout (executor.kube_client.now s - started) ≡ false

  -- How a resumed execution ends on these counts.
  unfoldable pub outcome : Int32 → Int32 → PhaseStatus
  outcome machines nodes =
      if lt 0 machines
      then PhaseStatus.running
      else if lt 0 nodes
      then PhaseStatus.running
      else PhaseStatus.completed

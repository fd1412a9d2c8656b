-- ===== src/Tests/Attachments.antt =====
-- The forced detachment on the concrete cluster.
use openshift_vsphere_migrat.Base.{
  ◌+◌, String, ◌≡◌, true, Result, err, api, Reason, is_not_found, refl, inl, inr, [], ◌∷◌, none,
  some, ok, if◌then◌else◌, ltb, Bool-cases, arith,
}
use openshift_vsphere_migrat.Base.Exec.{pure, ◌>>=◌}
use openshift_vsphere_migrat.Kube.{VolumeAttachment, Client}
use openshift_vsphere_migrat.Attachments.{looked_up, get_volume_attachment, force_detach_volume}
use openshift_vsphere_migrat.Attachments.Deletion.{IfOk, Released, force_detach_volume-Released}
use openshift_vsphere_migrat.Attachments.Waiting.{KeepsPace, force_detach_volume-ends}
use openshift_vsphere_migrat.Tests.World.{World, world, client, missing}

abbrev stuck : VolumeAttachment
stuck = record {
  name = "va-1";
  finalizers = "external-attacher" ∷ [];
  deletion_timestamp = some 0;
  pv_name = some "pv-1";
  node_name = "worker-0";
  attached = true;
  detach_error = none;
}

-- The attachment goes away after three seconds.
abbrev stuck_client : Client World
stuck_client = record client {
  list_volume_attachments = pure (stuck ∷ []);
  get_volume_attachment = λ name s. if ltb s.clock 3000000000 then (ok stuck, s) else missing s;
}

abbrev wait_second : World → World
wait_second s = record s { clock = s.clock + 1000000000 }

force_detach_volume-Released_example :
    IfOk stuck_client
      (Released stuck_client "pv-1" world)
      (force_detach_volume stuck_client wait_second 40 "pv-1" world)
force_detach_volume-Released_example =
    force_detach_volume-Released stuck_client wait_second 40 "pv-1" world

looked_up-clock :
    (name : String) (r : Result VolumeAttachment) (s : World)
    → (looked_up stuck_client name r s).1.clock ≡ s.clock
unfolding looked_up
looked_up-clock name (ok va) s = refl
looked_up-clock name (err e) s = elim (Bool-cases (is_not_found e)) [
  | inl h ↦ rw h refl
  | inr h ↦ rw h refl
]

lookup-clock :
    (name : String) (s : World) → (get_volume_attachment stuck_client name s).1.clock ≡ s.clock
unfolding get_volume_attachment ◌>>=◌
lookup-clock name s = elim (Bool-cases (ltb s.clock 3000000000)) [
  | inl e ↦ rw e (looked_up-clock name (ok stuck) s)
  | inr e ↦ rw e (looked_up-clock name (err (api Reason.not_found "not found")) s)
]

keeps_pace : KeepsPace stuck_client wait_second 1000000000
keeps_pace = (λ name s. omega (arith, lookup-clock name s), λ s. omega arith)

force_detach_volume-ends_example :
    force_detach_volume stuck_client wait_second (12 + 30) "pv-1" world
    ≡ force_detach_volume stuck_client wait_second 30 "pv-1" world
force_detach_volume-ends_example =
    force_detach_volume-ends stuck_client wait_second 1000000000 keeps_pace 30 12 (omega arith)
      "pv-1" world

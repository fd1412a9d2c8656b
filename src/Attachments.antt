-- ===== src/Attachments.antt =====
-- pkg/openshift/volumeattachments.go: the VolumeAttachmentManager.
pub mod Deletion
pub mod Waiting
use openshift_vsphere_migrat.Base.{
  string_eq, ltb, ◌-◌, ◌+◌, ℕ, zero, suc, String, Bool, true, false, List, [], ◌∷◌, Option, none,
  some, msg, lit, GoError, errorf, wrapped, context_canceled, Result, ok, err, is_not_found,
  if◌then◌else◌, ◌==◌, find,
}
use openshift_vsphere_migrat.Base.Exec.{Exec, pure, raise, gets, attempt, ◌>>=◌, wrap_error}
use openshift_vsphere_migrat.Api.{Time, Duration}
use openshift_vsphere_migrat.Kube.{VolumeAttachment, Client}

abbrev pub second : Duration
second = 1000000000

abbrev names_pv : String → Option String → Bool
names_pv name none = false
names_pv name (some p) = p == name

pub record VolumeAttachmentIssue : Type 0 where
  pub va_name : String
  pub pv_name : String
  pub node_name : String
  pub detach_error : String
  pub deletion_stuck : Bool
  pub stuck_duration : Duration

abbrev text_or_empty : Option String → String
text_or_empty none = ""
text_or_empty (some s) = s

abbrev issue_of : VolumeAttachment → Duration → VolumeAttachmentIssue
issue_of va d = record {
  va_name = va.name;
  pv_name = text_or_empty va.pv_name;
  node_name = va.node_name;
  detach_error = text_or_empty va.detach_error;
  deletion_stuck = true;
  stuck_duration = d;
}

-- The loop's body. A duration below zero is not above the timeout, so it may stop at 0.
unfoldable pub add_stuck :
    Time
    → Duration
    → VolumeAttachment
    → Option Time
    → List VolumeAttachmentIssue
    → List VolumeAttachmentIssue
add_stuck now timeout va none rest = rest
add_stuck now timeout va (some t) rest =
    if ltb timeout (now - t) then issue_of va (now - t) ∷ rest else rest

unfoldable pub stuck_attachments :
    Time → Duration → List VolumeAttachment → List VolumeAttachmentIssue
unfolding add_stuck
stuck_attachments now timeout [] = []
stuck_attachments now timeout (va ∷ vas) =
    add_stuck now timeout va va.deletion_timestamp (stuck_attachments now timeout vas)

module _ {S : Type 0} (client : Client S) where
  -- `ListVolumeAttachments`
  unfoldable pub list_volume_attachments : Exec S (List VolumeAttachment)
  list_volume_attachments =
      wrap_error (msg "failed to list VolumeAttachments") client.list_volume_attachments

  -- `none` is Go's nil: no VolumeAttachment names the PV.
  unfoldable pub get_volume_attachment_for_pv : String → Exec S (Option VolumeAttachment)
  get_volume_attachment_for_pv name = do
    vas ← wrap_error (msg "failed to list VolumeAttachments") client.list_volume_attachments
    pure (find (λ va. names_pv name va.pv_name) vas)

  attached_to : Option VolumeAttachment → Bool × String
  attached_to none = (false, "")
  attached_to (some va) = (true, va.node_name)

  unfoldable pub is_volume_attached : String → Exec S (Bool × String)
  unfolding attached_to
  is_volume_attached name = do va ← get_volume_attachment_for_pv name; pure (attached_to va)

  -- One look: an error counts as attached, and only a missing attachment as detached.
  unfoldable pub is_gone : Result (Option VolumeAttachment) → Bool
  is_gone (err e) = false
  is_gone (ok none) = true
  is_gone (ok (some va)) = false

  unfoldable pub wait_for_volume_detached : String → Duration → Exec S (Unit {0})
  unfolding is_gone
  wait_for_volume_detached name timeout =
      client.poll (3000000000) timeout
        (do r ← attempt (get_volume_attachment_for_pv name); pure (is_gone r))

  -- What follows the `Get` of `GetVolumeAttachment`.
  unfoldable pub looked_up : String → Result VolumeAttachment → Exec S (Option VolumeAttachment)
  looked_up name (ok va) = pure (some va)
  looked_up name (err e) =
      if is_not_found e
      then pure none
      else raise (wrapped (lit "failed to get VolumeAttachment " ∷ lit name ∷ []) e)

  unfoldable pub get_volume_attachment : String → Exec S (Option VolumeAttachment)
  unfolding looked_up
  get_volume_attachment name = do r ← attempt (client.get_volume_attachment name); looked_up name r

  -- `DiagnoseStuckAttachments`
  unfoldable pub diagnose_stuck_attachments : Duration → Exec S (List VolumeAttachmentIssue)
  unfolding stuck_attachments
  diagnose_stuck_attachments timeout = do
    vas ← wrap_error (msg "failed to list VolumeAttachments") client.list_volume_attachments
    now ← gets client.now
    pure (stuck_attachments now timeout vas)

  -- One turn of the loop below, after the look. `again` is the next turn.
  unfoldable pub await_deletion_look :
      Exec S (Unit {0}) → Result (Option VolumeAttachment) → Exec S (Unit {0})
  await_deletion_look again (err e) =
      raise (wrapped (msg "failed to check VolumeAttachment deletion status") e)
  await_deletion_look again (ok none) = pure tt
  await_deletion_look again (ok (some va)) = again

  abbrev deletion_timeout : GoError
  deletion_timeout =
      errorf (msg "timeout waiting for VolumeAttachment deletion after finalizer removal")

  -- The last loop of `ForceDetachVolume`. `sleep` is `time.Sleep(1 * time.Second)`. After `turns`
  -- turns the context is cancelled, and the call fails.
  unfoldable pub await_deletion : (S → S) → String → Time → ℕ → Exec S (Unit {0})
  unfolding await_deletion_look
  await_deletion sleep name deadline zero s =
      if ltb (client.now s) deadline
      then (await_deletion_look (pure tt) (err context_canceled) s)
      else (err deletion_timeout, s)
  await_deletion sleep name deadline (suc turns) s =
      let again = λ (s' : S). await_deletion sleep name deadline turns (sleep s') in
      if ltb (client.now s) deadline
      then (let (r, s') = get_volume_attachment name s in await_deletion_look again r s')
      else (err deletion_timeout, s)

  -- What follows the update that removes the finalizers.
  unfoldable pub after_force : (S → S) → ℕ → String → Result (Unit {0}) → Exec S (Unit {0})
  after_force sleep turns name (ok u) s =
      await_deletion sleep name (client.now s + 30000000000) turns s
  after_force sleep turns name (err e) s =
      if is_not_found e
      then (ok tt, s)
      else (err (wrapped (msg "failed to remove finalizers from VolumeAttachment") e), s)

  unfoldable pub force_found : (S → S) → ℕ → Option VolumeAttachment → Exec S (Unit {0})
  unfolding after_force
  force_found sleep turns none = pure tt
  force_found sleep turns (some va) = do
    r ← attempt (client.update_volume_attachment (record va { finalizers = [] }))
    after_force sleep turns va.name r

  unfoldable pub force_detach_volume : (S → S) → ℕ → String → Exec S (Unit {0})
  unfolding force_found
  force_detach_volume sleep turns name = do
    va ← wrap_error (msg "failed to get VolumeAttachment") (get_volume_attachment_for_pv name)
    force_found sleep turns va

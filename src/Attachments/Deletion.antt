-- ===== src/Attachments/Deletion.antt =====
-- What a success of `ForceDetachVolume` of pkg/openshift/volumeattachments.go shows.
use openshift_vsphere_migrat.Base.{
  ℕ, zero, suc, ◌+◌, String, ◌≡◌, refl, ◌⊎◌, inl, inr, true, [], Option, none, some, GoError,
  Message, Result, ok, err, is_not_found, ltb, Bool-cases,
}
use openshift_vsphere_migrat.Base.Exec.{Exec, continue, wrap_result, ◌>>=◌}
use openshift_vsphere_migrat.Api.{Time}
use openshift_vsphere_migrat.Kube.{VolumeAttachment, Client}
use openshift_vsphere_migrat.Attachments.{
  get_volume_attachment, get_volume_attachment_for_pv, await_deletion_look, await_deletion,
  after_force, force_found, force_detach_volume,
}

module _ {S : Type 0} (client : Client S) where
  -- A lookup by name that found no attachment, and left this world.
  abbrev pub Deleted : String → S → Type 0
  Deleted name t = (s : S) × (get_volume_attachment client name s ≡ (ok none, t))

  -- An update that found no attachment, and left this world.
  abbrev pub Missing : VolumeAttachment → S → Type 0
  Missing va t =
      (s : S) × (e : GoError) × (client.update_volume_attachment (record va { finalizers = [] }) s
        ≡ (err e, t))
      × (is_not_found e ≡ true)

  abbrev pub IfOk : (S → Type 0) → Result (Unit {0}) × S → Type 0
  IfOk P (ok u, t) = P t
  IfOk P (err e, t) = Unit

  IfOk-weaken :
      (P Q : S → Type 0) (r : Result (Unit {0}) × S) → ((t : S) → P t → Q t) → IfOk P r → IfOk Q r
  IfOk-weaken P Q (ok u, t) h x = h t x
  IfOk-weaken P Q (err e, t) h x = tt

  look-Deleted :
      (name : String) (again : Exec S (Unit {0}))
      → ((s : S) → IfOk (Deleted name) (again s))
      → (s : S) (r : Result (Option VolumeAttachment)) (t : S)
      → get_volume_attachment client name s ≡ (r, t)
      → IfOk (Deleted name) (await_deletion_look client again r t)
  unfolding await_deletion_look
  look-Deleted name again h s (err e) t q = tt
  look-Deleted name again h s (ok none) t q = (s, q)
  look-Deleted name again h s (ok (some va)) t q = h t

  await_deletion-Deleted :
      (sleep : S → S) (name : String) (deadline : Time) (turns : ℕ) (s : S)
      → IfOk (Deleted name) (await_deletion client sleep name deadline turns s)
  unfolding await_deletion await_deletion_look
  await_deletion-Deleted sleep name deadline zero s =
      elim (Bool-cases (ltb (client.now s) deadline)) [ inl e ↦ rw e tt | inr e ↦ rw e tt ]
  await_deletion-Deleted sleep name deadline (suc turns) s =
      elim (Bool-cases (ltb (client.now s) deadline)) [
        | inl e ↦ rw e (
            let (r, t) = get_volume_attachment client name s in
            look-Deleted name _ (λ t'. await_deletion-Deleted sleep name deadline turns (sleep t'))
              s r t refl)
        | inr e ↦ rw e tt
      ]

  -- What an ok result of the call shows of the world that it leaves: no attachment names the PV, or
  -- the one that did is gone.
  abbrev pub Released : String → S → S → Type 0
  Released pv_name s t =
      (get_volume_attachment_for_pv client pv_name s ≡ (ok none, t))
      ⊎ ((va : VolumeAttachment) × (s' : S) × (get_volume_attachment_for_pv client pv_name s
            ≡ (ok (some va), s'))
          × (Missing va t ⊎ Deleted va.name t))

  after_force-Released :
      (sleep : S → S) (turns : ℕ) (va : VolumeAttachment) (s : S) (r : Result (Unit {0})) (t : S)
      → client.update_volume_attachment (record va { finalizers = [] }) s ≡ (r, t)
      → IfOk (λ t'. Missing va t' ⊎ Deleted va.name t') (after_force client sleep turns va.name r t)
  unfolding after_force
  after_force-Released sleep turns va s (ok u) t q =
      IfOk-weaken (Deleted va.name) (λ t'. Missing va t' ⊎ Deleted va.name t')
        (await_deletion client sleep va.name (client.now t + 30000000000) turns t) (λ t' x. inr x)
        (await_deletion-Deleted sleep va.name (client.now t + 30000000000) turns t)
  after_force-Released sleep turns va s (err e) t q = elim (Bool-cases (is_not_found e)) [
    | inl h ↦ rw h (inl (s, e, q, h))
    | inr h ↦ rw h tt
  ]

  found-Released :
      (sleep : S → S) (turns : ℕ) (pv_name : String) (m : Message) (s : S)
      (r : Result (Option VolumeAttachment)) (t : S)
      → get_volume_attachment_for_pv client pv_name s ≡ (r, t)
      → IfOk (Released pv_name s) (continue (wrap_result m r) (force_found client sleep turns) t)
  unfolding force_found ◌>>=◌
  found-Released sleep turns pv_name m s (err e) t q = tt
  found-Released sleep turns pv_name m s (ok none) t q = inl q
  found-Released sleep turns pv_name m s (ok (some va)) t q =
      let (r, t') = client.update_volume_attachment (record va { finalizers = [] }) t in
      IfOk-weaken (λ t''. Missing va t'' ⊎ Deleted va.name t'') (Released pv_name s)
        (after_force client sleep turns va.name r t') (λ t'' x. inr (va, t, q, x))
        (after_force-Released sleep turns va t r t' refl)

  -- If the forced detach returns no error, then no attachment named the PV, or the update or the last
  -- lookup by name reported that the attachment which named it does not exist, and the world that the
  -- call leaves is the one behind that report.
  pub force_detach_volume-Released :
      (sleep : S → S) (turns : ℕ) (pv_name : String) (s : S)
      → IfOk (Released pv_name s) (force_detach_volume client sleep turns pv_name s)
  unfolding force_detach_volume ◌>>=◌
  force_detach_volume-Released sleep turns pv_name s =
      let (r, t) = get_volume_attachment_for_pv client pv_name s in
      found-Released sleep turns pv_name _ s r t refl

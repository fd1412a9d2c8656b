-- ===== src/Attachments/Waiting.antt =====
-- The loop of `ForceDetachVolume` of pkg/openshift/volumeattachments.go ends.
use openshift_vsphere_migrat.Base.{
  ℕ, zero, suc, ◌+◌, ◌*◌, ◌≤◌, String, ◌≡◌, refl, ap, ◌∙◌, inl, inr, false, [], Option, none, some,
  Message, Result, ok, err, ltb, Bool-cases, arith,
}
use openshift_vsphere_migrat.Base.Exec.{Exec, continue, wrap_result, ◌>>=◌}
use openshift_vsphere_migrat.Api.{Time, Duration}
use openshift_vsphere_migrat.Kube.{VolumeAttachment, Client}
use openshift_vsphere_migrat.Attachments.{
  get_volume_attachment, get_volume_attachment_for_pv, await_deletion_look, await_deletion,
  after_force, force_found, force_detach_volume,
}

module _ {S : Type 0} (client : Client S) (sleep : S → S) (interval : Duration) where
  -- A lookup does not turn the clock back, and a sleep takes at least the interval.
  abbrev pub KeepsPace : Type 0
  KeepsPace =
      ((name : String) (s : S) → client.now s ≤ client.now (get_volume_attachment client name s).1)
      × ((s : S) → client.now s + interval ≤ client.now (sleep s))

  ltb_of_not_less : (a b : ℕ) → b ≤ a → ltb a b ≡ false
  ltb_of_not_less a b h = ground arith

  less :
      (turns i deadline a b c : ℕ)
      → deadline ≤ a + suc turns * i
      → a ≤ b
      → b + i ≤ c
      → deadline ≤ c + turns * i
  less turns i deadline a b c h u v = omega arith

  look-equal :
      (f g : Exec S (Unit {0})) (r : Result (Option VolumeAttachment)) (t : S)
      → f t ≡ g t
      → await_deletion_look client f r t ≡ await_deletion_look client g r t
  unfolding await_deletion_look
  look-equal f g (err e) t h = refl
  look-equal f g (ok none) t h = refl
  look-equal f g (ok (some va)) t h = h

  one_more :
      KeepsPace
      → (name : String) (deadline : Time) (turns : ℕ) (s : S)
      → deadline ≤ client.now s + turns * interval
      → await_deletion client sleep name deadline (suc turns) s
        ≡ await_deletion client sleep name deadline turns s
  unfolding await_deletion
  one_more keeps name deadline zero s h =
      rw (ltb_of_not_less (client.now s) deadline (omega (arith, h))) refl
  one_more keeps name deadline (suc turns) s h = elim (Bool-cases (ltb (client.now s) deadline)) [
    | inl e ↦ rw e (
        let (r, t) = get_volume_attachment client name s in
        look-equal _ _ r t (
          one_more keeps name deadline turns (sleep t) (
            less turns interval deadline (client.now s) (client.now t) (client.now (sleep t)) h
              (keeps.0 name s) (keeps.1 t))))
    | inr e ↦ rw e refl
  ]

  await_more :
      KeepsPace
      → (name : String) (deadline : Time) (turns : ℕ) (s : S)
      → deadline ≤ client.now s + turns * interval
      → (more : ℕ)
      → await_deletion client sleep name deadline (more + turns) s
        ≡ await_deletion client sleep name deadline turns s
  await_more keeps name deadline turns s h zero =
      ap (λ n. await_deletion client sleep name deadline n s) (omega arith)
  await_more keeps name deadline turns s h (suc more) =
      ap (λ n. await_deletion client sleep name deadline n s) (omega arith)
      ∙ one_more keeps name deadline (more + turns) s (omega (arith, h))
      ∙ await_more keeps name deadline turns s h more

  after_force-ends :
      KeepsPace
      → (turns more : ℕ) → 30000000000 ≤ turns * interval
      → (name : String) (r : Result (Unit {0})) (s : S)
      → after_force client sleep (more + turns) name r s ≡ after_force client sleep turns name r s
  unfolding after_force
  after_force-ends keeps turns more h name (ok u) s =
      await_more keeps name (client.now s + 30000000000) turns s (omega (arith, h)) more
  after_force-ends keeps turns more h name (err e) s = refl

  found-ends :
      KeepsPace
      → (turns more : ℕ) → 30000000000 ≤ turns * interval
      → (m : Message) (r : Result (Option VolumeAttachment)) (s : S)
      → continue (wrap_result m r) (force_found client sleep (more + turns)) s
        ≡ continue (wrap_result m r) (force_found client sleep turns) s
  unfolding force_found ◌>>=◌
  found-ends keeps turns more h m (err e) s = refl
  found-ends keeps turns more h m (ok none) s = refl
  found-ends keeps turns more h m (ok (some va)) s =
      let (r, t) = client.update_volume_attachment (record va { finalizers = [] }) s in
      after_force-ends keeps turns more h va.name r t

  -- If a sleep takes at least an interval and a lookup never turns the clock back, then the forced
  -- detach ends by its deadline: once the context lives for turns that together last 30 seconds, a
  -- longer life of the context changes nothing.
  pub force_detach_volume-ends :
      KeepsPace
      → (turns more : ℕ) → 30000000000 ≤ turns * interval
      → (pv_name : String) (s : S)
      → force_detach_volume client sleep (more + turns) pv_name s
        ≡ force_detach_volume client sleep turns pv_name s
  unfolding force_detach_volume ◌>>=◌
  force_detach_volume-ends keeps turns more h pv_name s =
      let (r, t) = get_volume_attachment_for_pv client pv_name s in
      found-ends keeps turns more h _ r t

-- ===== src/Vcenter/Waiting.antt =====
-- The loop of `WaitForFCDDetached` of pkg/vsphere/fcd.go: what a success shows, and that it ends.
use openshift_vsphere_migrat.Base.{
  ℕ, zero, suc, ◌+◌, ◌*◌, ◌≤◌, ◌<◌, String, ◌≡◌, refl, ap, ◌∙◌, ◌⊎◌, inl, inr, Bool, true, false,
  Result, ok, err, ltb, Bool-cases, arith,
}
use openshift_vsphere_migrat.Base.Exec.{Exec}
use openshift_vsphere_migrat.Api.{Time, Duration}
use openshift_vsphere_migrat.Vcenter.{
  Vcenter, is_fcd_attached, after_check, await_detached, wait_for_fcd_detached,
}

module _ {S : Type 0} (vcenter : Vcenter S) (pause : S → S) (datacenter folder id : String) where
  -- A check that reported the disk as attached nowhere, and left this world.
  abbrev Cleared : S → Type 0
  Cleared s' =
      (s : S) × (vm : String) × (is_fcd_attached vcenter datacenter folder id s
        ≡ (ok (false, vm), s'))

  -- What an ok result of the loop shows of the world that it leaves.
  abbrev pub ShowsDetached : Result (Unit {0}) × S → Type 0
  ShowsDetached (ok u, s') = Cleared s'
  ShowsDetached (err e, s') = Unit

  after_check-ShowsDetached :
      (deadline : Time) (again : Exec S (Unit {0}))
      → ((t : S) → ShowsDetached (again t))
      → (s : S) (r : Result (Bool × String)) (s' : S)
      → is_fcd_attached vcenter datacenter folder id s ≡ (r, s')
      → ShowsDetached (after_check vcenter id deadline again r s')
  unfolding after_check
  after_check-ShowsDetached deadline again h s (err e) s' q = tt
  after_check-ShowsDetached deadline again h s (ok (false, vm)) s' q = (s, vm, q)
  after_check-ShowsDetached deadline again h s (ok (true, vm)) s' q =
      elim (Bool-cases (ltb deadline (vcenter.now s'))) [ inl e ↦ rw e tt | inr e ↦ rw e (h s') ]

  await_detached-ShowsDetached :
      (deadline : Time) (turns : ℕ) (s : S)
      → ShowsDetached (await_detached vcenter pause datacenter folder id deadline turns s)
  unfolding await_detached
  await_detached-ShowsDetached deadline zero s =
      let (r, s') = is_fcd_attached vcenter datacenter folder id s in
      after_check-ShowsDetached deadline _ (λ t. tt) s r s' refl
  await_detached-ShowsDetached deadline (suc turns) s =
      let (r, s') = is_fcd_attached vcenter datacenter folder id s in
      after_check-ShowsDetached deadline _
        (λ t. await_detached-ShowsDetached deadline turns (pause t)) s r s' refl

  -- If the wait returns no error, then its last check reported the disk as attached to no machine,
  -- and the world that it leaves is the one behind that check.
  pub wait_for_fcd_detached-ShowsDetached :
      (turns : ℕ) (timeout : Duration) (s : S)
      → ShowsDetached (wait_for_fcd_detached vcenter pause turns datacenter folder id timeout s)
  unfolding wait_for_fcd_detached
  wait_for_fcd_detached-ShowsDetached turns timeout s =
      await_detached-ShowsDetached (vcenter.now s + timeout) turns s

  -- The clock does not go back during a check, and a pause is at least the poll interval.
  abbrev pub KeepsTime : Duration → Type 0
  KeepsTime interval =
      ((s : S) → vcenter.now s ≤ vcenter.now (is_fcd_attached vcenter datacenter folder id s).1)
      × ((s : S) → vcenter.now s + interval ≤ vcenter.now (pause s))

  ltb_of_less : (a b : ℕ) → a < b → ltb a b ≡ true
  ltb_of_less a b h = ground arith

  past-equal :
      (deadline : Time) (f g : Exec S (Unit {0})) (r : Result (Bool × String)) (s' : S)
      → (deadline < vcenter.now s') ⊎ (f s' ≡ g s')
      → after_check vcenter id deadline f r s' ≡ after_check vcenter id deadline g r s'
  unfolding after_check
  past-equal deadline f g (err e) s' h = refl
  past-equal deadline f g (ok (false, vm)) s' h = refl
  past-equal deadline f g (ok (true, vm)) s' (inl h) = rw (ltb_of_less _ _ h) refl
  past-equal deadline f g (ok (true, vm)) s' (inr h) =
      elim (Bool-cases (ltb deadline (vcenter.now s'))) [ inl e ↦ rw e refl | inr e ↦ rw e h ]

  one_more :
      (interval : Duration)
      → KeepsTime interval
      → (deadline : Time) (turns : ℕ) (s : S) → deadline < vcenter.now s + turns * interval
      → await_detached vcenter pause datacenter folder id deadline (suc turns) s
        ≡ await_detached vcenter pause datacenter folder id deadline turns s
  unfolding await_detached
  one_more interval keeps deadline zero s h =
      let (r, s') = is_fcd_attached vcenter datacenter folder id s in
      past-equal deadline _ _ r s' (inl (omega (arith, h, keeps.0 s)))
  one_more interval keeps deadline (suc turns) s h =
      let (r, s') = is_fcd_attached vcenter datacenter folder id s in
      past-equal deadline _ _ r s' (
        inr (
          one_more interval keeps deadline turns (pause s') (
            less turns interval deadline (vcenter.now s) (vcenter.now s') (vcenter.now (pause s')) h
              (keeps.0 s) (keeps.1 s'))))
    where
      less :
          (turns interval deadline a b c : ℕ)
          → deadline < a + suc turns * interval
          → a ≤ b
          → b + interval ≤ c
          → deadline < c + turns * interval
      less turns interval deadline a b c h u v = omega arith

  -- If a pause takes at least an interval and a check never turns the clock back, then the loop ends
  -- by its deadline: once the context lives for turns that together last longer than the timeout,
  -- a longer life of the context changes nothing.
  pub wait_for_fcd_detached-ends :
      (interval : Duration)
      → KeepsTime interval
      → (turns : ℕ) (timeout : Duration) → timeout < turns * interval
      → (more : ℕ) (s : S)
      → wait_for_fcd_detached vcenter pause (more + turns) datacenter folder id timeout s
        ≡ wait_for_fcd_detached vcenter pause turns datacenter folder id timeout s
  unfolding wait_for_fcd_detached
  wait_for_fcd_detached-ends interval keeps turns timeout h more s = await_more more
    where
      await_more :
          (more : ℕ)
          → await_detached vcenter pause datacenter folder id
              (vcenter.now s + timeout)
              (more + turns)
              s
            ≡ await_detached vcenter pause datacenter folder id (vcenter.now s + timeout) turns s
      await_more zero =
          ap (λ n. await_detached vcenter pause datacenter folder id (vcenter.now s + timeout) n s)
            (omega arith)
      await_more (suc more) =
          ap (λ n. await_detached vcenter pause datacenter folder id (vcenter.now s + timeout) n s)
            (omega arith)
          ∙ one_more interval keeps (vcenter.now s + timeout) (more + turns) s (omega (arith, h))
          ∙ await_more more

-- ===== src/Workloads/Termination.antt =====
-- `WaitForPodsTerminated` of pkg/openshift/workloads.go: what a success shows, and that it ends.
use openshift_vsphere_migrat.Base.{
  ℕ, suc, ◌+◌, ◌*◌, ◌≤◌, ◌<◌, String, ◌≡◌, refl, ap, ◌∙◌, Bool, true, false, List, [], ◌∷◌, some,
  none, Option, Message, msg, Result, ok, err, ◌==◌, nat_eq, if◌then◌else◌, count, All, arith,
}
use openshift_vsphere_migrat.Base.Exec.{Exec, continue, pure, ◌>>=◌}
use openshift_vsphere_migrat.Api.{Duration}
use openshift_vsphere_migrat.Kube.{Pod, Client}
use openshift_vsphere_migrat.Ticker.{Ticker}
use openshift_vsphere_migrat.Ticker.Laws.{Shows, wait-Shows, Ticks, wait-ends}
use openshift_vsphere_migrat.Volumes.{find_pods_using_pvc}
use openshift_vsphere_migrat.Workloads.{is_active, terminated_look, wait_for_pods_terminated}

counted_none : (b : Bool) (n : ℕ) → (if b then 1 else 0) + n ≡ 0 → (b ≡ false) × (n ≡ 0)
counted_none true n h = ground arith
counted_none false n h = (refl, omega (arith, h))

zero_of : (n : ℕ) → (n == 0) ≡ true → n ≡ 0
zero_of n h = ground arith

All-count : {A : Type 0} (p : A → Bool) (xs : List A) → count p xs ≡ 0 → All (λ x. p x ≡ false) xs
All-count p [] h = tt
All-count p (x ∷ xs) h =
    let (e, rest) = counted_none (p x) (count p xs) h in (e, All-count p xs rest)

ok_chosen :
    {u : Unit {0}} (b : Bool)
    → ◌≡◌ {A = Result (Option (Unit {0}))} (ok (if b then some tt else none)) (ok (some u))
    → b ≡ true
ok_chosen true e = refl
ok_chosen false e = cc

abbrev late : Message
late = msg "timeout waiting for pods to terminate"

module _ {S : Type 0} (client : Client S) (tick : S → S) (namespace name : String) where
  -- What an ok result of the loop shows of the world that it leaves: a listing of the claim's pods in
  -- which each has succeeded or failed.
  abbrev pub ShowsTerminated : Result (Unit {0}) × S → Type 0
  ShowsTerminated (ok u, t) =
      (s : S) × (pods : List Pod) × (find_pods_using_pvc client namespace name s ≡ (ok pods, t))
      × All (λ pod. is_active pod ≡ false) pods
  ShowsTerminated (err e, t) = Unit

  abbrev verdict : List Pod → Exec S (Option (Unit {0}))
  verdict pods = pure (if count is_active pods == 0 then some tt else none)

  look-listing :
      (s : S) (u : Unit {0}) (t : S) (r : Result (List Pod)) (t' : S)
      → find_pods_using_pvc client namespace name s ≡ (r, t')
      → continue r verdict t' ≡ (ok (some u), t)
      → ShowsTerminated (ok u, t)
  look-listing s u t (err e) t' q h = cc
  look-listing s u t (ok pods) t' q h =
      let e = ok_chosen (count is_active pods == 0) (ap (λ x. x.0) h) in
      (
        s,
        pods,
        q ∙ ap (λ w. (ok pods, w)) (ap (λ x. x.1) h),
        All-count is_active pods (zero_of (count is_active pods) e),
      )

  abbrev ticker : Ticker S
  ticker = record { now = client.now; tick = tick }

  shown :
      (r : Result (Unit {0}) × S)
      → Shows ticker (terminated_look client namespace name) late r
      → ShowsTerminated r
  unfolding terminated_look ◌>>=◌
  shown (err e, t) h = tt
  shown (ok u, t) (s, q) =
      let (r, t') = find_pods_using_pvc client namespace name s in look-listing s u t r t' refl q

  -- If the wait returns no error, then its last listing of the pods that use the claim showed only
  -- pods that have succeeded or failed, and the world that it leaves is the one behind that listing.
  pub wait_for_pods_terminated-ShowsTerminated :
      (turns : ℕ) (timeout : Duration) (s : S)
      → ShowsTerminated (wait_for_pods_terminated client tick turns namespace name timeout s)
  unfolding wait_for_pods_terminated
  wait_for_pods_terminated-ShowsTerminated turns timeout s =
      shown _ (wait-Shows ticker (terminated_look client namespace name) late timeout turns s)

  -- A listing does not turn the clock back, and a tick comes after at least the interval.
  abbrev pub KeepsTicks : Duration → Type 0
  KeepsTicks interval =
      ((s : S) → client.now s ≤ client.now (find_pods_using_pvc client namespace name s).1)
      × ((s : S) → client.now s + interval ≤ client.now (tick s))

  verdict-world : (r : Result (List Pod)) (t : S) → (continue r verdict t).1 ≡ t
  verdict-world (ok pods) t = refl
  verdict-world (err e) t = refl

  keeps-Ticks :
      (interval : Duration)
      → KeepsTicks interval
      → Ticks ticker (terminated_look client namespace name) late interval
  unfolding terminated_look ◌>>=◌
  keeps-Ticks interval (listing, ticks) = (
    λ s.
        let (r, t) = find_pods_using_pvc client namespace name s in
        rw (verdict-world r t) (listing s),
    ticks,
  )

  -- If the ticks are at least an interval apart and a listing never turns the clock back, then the
  -- wait ends by its deadline: once the context lives for ticks that together last longer than the
  -- timeout, a longer life of the context changes nothing.
  pub wait_for_pods_terminated-ends :
      (interval : Duration)
      → KeepsTicks interval
      → (turns : ℕ) (timeout : Duration) → timeout < suc turns * interval
      → (more : ℕ) (s : S)
      → wait_for_pods_terminated client tick (more + suc turns) namespace name timeout s
        ≡ wait_for_pods_terminated client tick (suc turns) namespace name timeout s
  unfolding wait_for_pods_terminated
  wait_for_pods_terminated-ends interval ticks =
      wait-ends ticker (terminated_look client namespace name) late interval
        (keeps-Ticks interval ticks)

-- ===== src/Ticker.antt =====
-- The waits of pkg/openshift that look at the cluster at every tick of a `time.Ticker`: one loop,
-- which `WaitForPodsTerminated`, `WaitForOperatorsHealthy`, `WaitForMachinesReady` and their kin
-- write out each time.
pub mod Laws
use openshift_vsphere_migrat.Base.{
  ℕ, zero, suc, ◌+◌, Option, none, some, Message, GoError, errorf, context_canceled, Result, ok,
  err, ltb, if◌then◌else◌,
}
use openshift_vsphere_migrat.Base.Exec.{Exec, pure}
use openshift_vsphere_migrat.Api.{Time, Duration}

-- What a wait takes from the cluster: the clock, and the wait for the ticker.
pub record Ticker (S : Type 0) : Type 0 where
  pub now : S → Time
  pub tick : S → S

module _ {S A : Type 0} where
  -- One turn after the look: an error or a look that shows nothing goes on.
  unfoldable pub after_look : Exec S A → Result (Option A) → Exec S A
  after_look again (err e) = again
  after_look again (ok none) = again
  after_look again (ok (some a)) = pure a

  -- After `turns` ticks the context is done.
  unfoldable pub await : Ticker S → Exec S (Option A) → Message → Time → ℕ → Exec S A
  unfolding after_look
  await ticker look late deadline zero s = (err context_canceled, s)
  await ticker look late deadline (suc turns) s =
      let again = await ticker look late deadline turns in
      let s' = ticker.tick s in
      let (r, s'') = look s' in
      if ltb deadline (ticker.now s') then (err (errorf late), s') else after_look again r s''

  unfoldable pub wait : Ticker S → Exec S (Option A) → Message → Duration → ℕ → Exec S A
  wait ticker look late timeout turns s = await ticker look late (ticker.now s + timeout) turns s

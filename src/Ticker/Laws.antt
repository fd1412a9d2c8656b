-- ===== src/Ticker/Laws.antt =====
-- What a success of a wait shows, and that a wait ends.
use openshift_vsphere_migrat.Base.{
  ℕ, zero, suc, ◌+◌, ◌*◌, ◌≤◌, ◌<◌, ◌≡◌, refl, ap, ◌∙◌, inl, inr, true, Option, none, some, Message,
  Result, ok, err, ltb, Bool-cases, arith,
}
use openshift_vsphere_migrat.Base.Exec.{Exec}
use openshift_vsphere_migrat.Api.{Time, Duration}
use openshift_vsphere_migrat.Ticker.{Ticker, after_look, await, wait}

module _ {S A : Type 0} (ticker : Ticker S) (look : Exec S (Option A)) (late : Message) where
  -- A wait that returns a value found it at its last look, and leaves the world as that look did.
  abbrev pub Shows : Result A × S → Type 0
  Shows (ok a, t) = (s : S) × (look s ≡ (ok (some a), t))
  Shows (err e, t) = Unit

  after_look-Shows :
      (again : Exec S A)
      → ((t : S) → Shows (again t))
      → (s : S) (r : Result (Option A)) (t : S) → look s ≡ (r, t)
      → Shows (after_look again r t)
  unfolding after_look
  after_look-Shows again h s (err e) t q = h t
  after_look-Shows again h s (ok none) t q = h t
  after_look-Shows again h s (ok (some a)) t q = (s, q)

  await-Shows :
      (deadline : Time) (turns : ℕ) (s : S) → Shows (await ticker look late deadline turns s)
  unfolding await
  await-Shows deadline zero s = tt
  await-Shows deadline (suc turns) s =
      elim (Bool-cases (ltb deadline (ticker.now (ticker.tick s)))) [
        | inl e ↦ rw e tt
        | inr e ↦ rw e (
            let (r, t) = look (ticker.tick s) in
            after_look-Shows _ (await-Shows deadline turns) (ticker.tick s) r t refl)
      ]

  pub wait-Shows :
      (timeout : Duration) (turns : ℕ) (s : S) → Shows (wait ticker look late timeout turns s)
  unfolding wait
  wait-Shows timeout turns s = await-Shows (ticker.now s + timeout) turns s

  -- A look does not turn the clock back, and a tick comes after at least the interval.
  abbrev pub Ticks : Duration → Type 0
  Ticks interval =
      ((s : S) → ticker.now s ≤ ticker.now (look s).1)
      × ((s : S) → ticker.now s + interval ≤ ticker.now (ticker.tick s))

  ltb_of_past : (a b : ℕ) → a < b → ltb a b ≡ true
  ltb_of_past a b h = ground arith

  past : (i deadline a b : ℕ) → deadline < a + suc zero * i → a + i ≤ b → deadline < b
  past i deadline a b h u = omega arith

  still :
      (turns i deadline a b c : ℕ)
      → deadline < a + suc (suc turns) * i
      → a + i ≤ b
      → b ≤ c
      → deadline < c + suc turns * i
  still turns i deadline a b c h u v = omega arith

  look-equal :
      (f g : Exec S A) (r : Result (Option A)) (t : S)
      → f t ≡ g t
      → after_look f r t ≡ after_look g r t
  unfolding after_look
  look-equal f g (err e) t h = h
  look-equal f g (ok none) t h = h
  look-equal f g (ok (some a)) t h = refl

  one_more :
      (interval : Duration)
      → Ticks interval
      → (deadline : Time) (turns : ℕ) (s : S) → deadline < ticker.now s + suc turns * interval
      → await ticker look late deadline (suc (suc turns)) s
        ≡ await ticker look late deadline (suc turns) s
  unfolding await
  one_more interval ticks deadline zero s h =
      rw
        (ltb_of_past deadline (ticker.now (ticker.tick s))
          (past interval deadline (ticker.now s) (ticker.now (ticker.tick s)) h (ticks.1 s)))
        refl
  one_more interval ticks deadline (suc turns) s h =
      elim (Bool-cases (ltb deadline (ticker.now (ticker.tick s)))) [
        | inl e ↦ rw e refl
        | inr e ↦ rw e (
            let (r, t) = look (ticker.tick s) in
            look-equal _ _ r t (
              one_more interval ticks deadline turns t (
                still turns interval deadline (ticker.now s) (ticker.now (ticker.tick s))
                  (ticker.now t) h (ticks.1 s) (ticks.0 (ticker.tick s)))))
      ]

  longer : (k n i now timeout : ℕ) → timeout < suc n * i → now + timeout < now + suc (k + n) * i
  longer k n i now timeout h = ground arith

  -- Once the context lives for ticks that together last longer than the timeout, a longer life
  -- changes nothing.
  pub wait-ends :
      (interval : Duration)
      → Ticks interval
      → (turns : ℕ) (timeout : Duration) → timeout < suc turns * interval
      → (more : ℕ) (s : S)
      → wait ticker look late timeout (more + suc turns) s
        ≡ wait ticker look late timeout (suc turns) s
  unfolding wait
  wait-ends interval ticks turns timeout h more s = await_more more
    where
      run : ℕ → Result A × S
      run n = await ticker look late (ticker.now s + timeout) n s

      await_more : (more : ℕ) → run (more + suc turns) ≡ run (suc turns)
      await_more zero = ap run (omega arith)
      await_more (suc more) =
          ap run (omega arith)
          ∙ one_more interval ticks (ticker.now s + timeout) (more + turns) s
              (longer more turns interval (ticker.now s) timeout h)
          ∙ ap run (omega arith)
          ∙ await_more more

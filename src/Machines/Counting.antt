-- ===== src/Machines/Counting.antt =====
-- `WaitForMachinesReady` of pkg/openshift/machines.go: what the int32 counts of a success show.
use openshift_vsphere_migrat.Base.{
  ℕ, suc, ◌+◌, ◌≤◌, ◌<◌, String, ◌≡◌, refl, sym, ap, ◌∙◌, inl, inr, Bool, true, false, ◌&&◌, List,
  [], ◌∷◌, Option, none, some, msg, Message, Result, ok, err, if◌then◌else◌, ◌==◌, nat_eq, count,
  length, All, Bool-cases, arith,
}
use openshift_vsphere_migrat.Base.Exec.{Exec, continue, pure, ◌>>=◌}
use openshift_vsphere_migrat.Base.Int32.{Int32, add, wrap, lt, sign_bit}
use openshift_vsphere_migrat.Api.{Duration}
use openshift_vsphere_migrat.Ticker.Laws.{Shows, wait-Shows}
use openshift_vsphere_migrat.Machines.Types.{Machine, MachineClient, MachineManager}
use openshift_vsphere_migrat.Machines.Readiness.{
  is_machine_ready, ready_machines, get_machine_status, all_ready, machines_look,
  wait_for_machines_ready,
}

-- The loop's int32 is the number of ready machines, kept to 32 bits.
ready_machines-count :
    (ms : List Machine) (r : ℕ) → ready_machines ms (wrap r) ≡ wrap (r + count is_machine_ready ms)
unfolding ready_machines
ready_machines-count [] r = ap wrap (omega arith)
ready_machines-count (m ∷ ms) r = elim (Bool-cases (is_machine_ready m)) [
  | inl e ↦ rw e (
      ap (ready_machines ms) (wrap_add r) ∙ ready_machines-count ms (r + 1) ∙ ap wrap (omega arith))
  | inr e ↦ rw e (ready_machines-count ms r ∙ ap wrap (omega arith))
]
  where
    wrap_add : (r : ℕ) → add (wrap r) 1 ≡ wrap (r + 1)
    wrap_add r = omega arith

count-le-length : {A : Type 0} (p : A → Bool) (xs : List A) → count p xs ≤ length xs
count-le-length p [] = omega arith
count-le-length p (x ∷ xs) = ground (arith, count-le-length p xs)

All-count :
    {A : Type 0} (p : A → Bool) (xs : List A) → count p xs ≡ length xs → All (λ x. p x ≡ true) xs
All-count p [] h = tt
All-count p (x ∷ xs) h = elim (Bool-cases (p x)) [
  | inl e ↦ (e, All-count p xs (rest (p x) e (count p xs) (length xs) h))
  | inr e ↦ absurd (few (p x) e (count p xs) (length xs) h (count-le-length p xs))
]
  where
    rest : (b : Bool) → b ≡ true → (c n : ℕ) → (if b then 1 else 0) + c ≡ suc n → c ≡ n
    rest b e c n h = ground arith

    few : (b : Bool) → b ≡ false → (c n : ℕ) → (if b then 1 else 0) + c ≡ suc n → c ≤ n → ⊥
    few b e c n h k = ground arith

beq_of_true : (a b : ℕ) → (a == b) ≡ true → a ≡ b
beq_of_true a b h = ground arith

small : (n : ℕ) → n < sign_bit → wrap n ≡ n
small n h = omega arith

positive : (n : ℕ) → n < sign_bit → lt 0 n ≡ true → 0 < n
positive n h e = ground arith

split : (a b : Bool) → (a && b) ≡ true → (a ≡ true) × (b ≡ true)
split true b h = (refl, h)
split false b h = ground arith

-- Two equal counts of which the second is positive as an int32.
exact :
    (c n : ℕ)
    → c ≤ n
    → n < sign_bit
    → (wrap c == wrap n && lt 0 (wrap n)) ≡ true
    → (c ≡ n) × (0 < n)
exact c n h k e =
    let (same, more) = split (wrap c == wrap n) (lt 0 (wrap n)) e in
    (
      sym (small c (omega arith)) ∙ beq_of_true (wrap c) (wrap n) same ∙ small n k,
      positive n k (ap (λ a. lt 0 a) (sym (small n k)) ∙ more),
    )

chosen :
    (b : Bool) (c d : Int32 × Int32)
    → ◌≡◌ {A = Result (Option (Int32 × Int32))} (ok (if b then some c else none)) (ok (some d))
    → (b ≡ true) × (c ≡ d)
chosen true c d e = (refl, cc)
chosen false c d e = cc

abbrev late : Message
late = msg "timeout waiting for machines to be ready"

abbrev pub Few : Result (List Machine) → Type 0
Few (ok machines) = length machines < sign_bit
Few (err e) = Unit

abbrev counts_of : List Machine → Int32 × Int32
counts_of machines = (ready_machines machines 0, wrap (length machines))

counted :
    (machines : List Machine)
    → length machines < sign_bit
    → all_ready (counts_of machines) ≡ true
    → (0 < length machines)
      × All (λ machine. is_machine_ready machine ≡ true) machines
      × (counts_of machines ≡ (length machines, length machines))
counted machines few e =
    let same = ready_machines-count machines 0 ∙ ap wrap (omega arith) in
    let (c, p) =
      exact (count is_machine_ready machines) (length machines)
        (count-le-length is_machine_ready machines) few
        (ap (λ r. r == wrap (length machines) && lt 0 (wrap (length machines))) (sym same) ∙ e) in
    let exactly = small (length machines) few in
    (
      p,
      All-count is_machine_ready machines c,
      ap (λ r. (r, wrap (length machines))) (same ∙ ap wrap c ∙ exactly)
          ∙ ap (λ n. (length machines, n)) exactly,
    )

module _ {S : Type 0} (manager : MachineManager S) (client : MachineClient S) (name : String) where
  -- What an ok result of the wait shows of the world that it leaves: a listing of the set's machines,
  -- at least one, all of them ready, whose length both counts give.
  abbrev pub ShowsReady : Result (Int32 × Int32) × S → Type 0
  ShowsReady (ok counts, t) =
      (s : S) × (machines : List Machine) × (client.list_machines name s ≡ (ok machines, t))
      × (0 < length machines)
      × All (λ machine. is_machine_ready machine ≡ true) machines
      × (counts ≡ (length machines, length machines))
  ShowsReady (err e, t) = Unit

  abbrev verdict : List Machine → Exec S (Option (Int32 × Int32))
  verdict machines =
      pure (if all_ready (counts_of machines) then some (counts_of machines) else none)

  look-listing :
      (s : S) (d : Int32 × Int32) (t : S) (r : Result (List Machine)) (t' : S)
      → Few r
      → client.list_machines name s ≡ (r, t')
      → continue r verdict t' ≡ (ok (some d), t)
      → ShowsReady (ok d, t)
  look-listing s d t (err e) t' few q h = cc
  look-listing s d t (ok machines) t' few q h =
      let (e, same) =
        chosen (all_ready (counts_of machines)) (counts_of machines) d (ap (λ x. x.0) h) in
      let (p, ready, exactly) = counted machines few e in
      (s, machines, q ∙ ap (λ w. (ok machines, w)) (ap (λ x. x.1) h), p, ready, sym same ∙ exactly)

  look-verdict :
      manager.machine_client ≡ some client
      → (s : S) (r : Result (List Machine)) (t : S) → client.list_machines name s ≡ (r, t)
      → machines_look manager name s ≡ continue r verdict t
  unfolding machines_look get_machine_status ◌>>=◌
  look-verdict plugged s (ok machines) t q = rw plugged (rw q refl)
  look-verdict plugged s (err e) t q = rw plugged (rw q refl)

  shown :
      manager.machine_client ≡ some client
      → ((s : S) → Few (client.list_machines name s).0)
      → (r : Result (Int32 × Int32) × S) → Shows manager.ticker (machines_look manager name) late r
      → ShowsReady r
  shown plugged few (err e, t) h = tt
  shown plugged few (ok d, t) (s, q) =
      let (r, t') = client.list_machines name s in
      look-listing s d t r t' (few s) refl (sym (look-verdict plugged s r t' refl) ∙ q)

  -- For a manager with a client whose listings never hold 2^31 machines or more: if the wait returns
  -- no error, then its last listing of the set's machines held at least one machine, all of them with
  -- a node and in phase Running, both int32 counts that it returns are the listing's length, and the
  -- world that it leaves is the one behind that listing.
  pub wait_for_machines_ready-ShowsReady :
      manager.machine_client ≡ some client
      → ((s : S) → Few (client.list_machines name s).0)
      → (timeout : Duration) (s : S) → ShowsReady (wait_for_machines_ready manager name timeout s)
  unfolding wait_for_machines_ready
  wait_for_machines_ready-ShowsReady plugged few timeout s =
      shown plugged few _
        (wait-Shows manager.ticker (machines_look manager name) late timeout manager.turns s)

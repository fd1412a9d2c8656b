-- ===== src/Operators/Verdict.antt =====
-- The operators' health test of pkg/openshift/operators.go against a description of it.
use openshift_vsphere_migrat.Base.{
  String, ◌≡◌, refl, ap, ◌∙◌, inl, inr, Bool, true, false, ◌&&◌, ◌||◌, not, List, [], ◌∷◌, Message,
  if◌then◌else◌, ◌==◌, string_eq, Bool-cases, arith,
}
use openshift_vsphere_migrat.Operators.{
  OperatorCondition, ClusterOperator, Health, is_true, read_condition, read_conditions,
  unknown_health, is_excluded, is_unhealthy, unhealthy_operators, verdict_on,
}

-- What the last condition of a type says, `d` where there is none.
unfoldable pub last_says : String → Bool → List OperatorCondition → Bool
last_says kind d [] = d
last_says kind d (c ∷ cs) = last_says kind (if c.kind == kind then is_true c else d) cs

-- The operators that a migration waits for: the last Available condition is true, and the last Degraded
-- condition is not.
abbrev pub is_well : ClusterOperator → Bool
is_well o =
    is_excluded o.name
    || (last_says "Available" false o.conditions && not (last_says "Degraded" false o.conditions))

unfoldable pub all_well : List ClusterOperator → Bool
all_well [] = true
all_well (o ∷ os) = is_well o && all_well os

module _ (c : OperatorCondition) (h : Health) where
  read-available :
      (read_condition c h).available ≡ (if c.kind == "Available" then is_true c else h.available)
  unfolding read_condition
  read-available = elim (Bool-cases (c.kind == "Available")) [
    | inl e ↦ rw e refl
    | inr e ↦ rw e (elim (Bool-cases (c.kind == "Degraded")) [
      | inl d ↦ rw d refl
      | inr d ↦
          rw d
            (elim (Bool-cases (c.kind == "Progressing")) [ inl p ↦ rw p refl | inr p ↦ rw p refl ])
    ])
  ]

  -- A condition of type Available is none of type Degraded.
  not_degraded : (c.kind == "Available") ≡ true → (c.kind == "Degraded") ≡ false
  not_degraded e = ap (λ k. k == "Degraded") ((string_eq.beq_iff c.kind "Available").0 e)

  read-degraded :
      (read_condition c h).degraded ≡ (if c.kind == "Degraded" then is_true c else h.degraded)
  unfolding read_condition
  read-degraded = elim (Bool-cases (c.kind == "Available")) [
    | inl e ↦ rw e (rw (not_degraded e) refl)
    | inr e ↦ rw e (elim (Bool-cases (c.kind == "Degraded")) [
      | inl d ↦ rw d refl
      | inr d ↦
          rw d
            (elim (Bool-cases (c.kind == "Progressing")) [ inl p ↦ rw p refl | inr p ↦ rw p refl ])
    ])
  ]

read_conditions-last :
    (cs : List OperatorCondition) (h : Health)
    → ((read_conditions cs h).available ≡ last_says "Available" h.available cs)
      × ((read_conditions cs h).degraded ≡ last_says "Degraded" h.degraded cs)
unfolding read_conditions last_says
read_conditions-last [] h = (refl, refl)
read_conditions-last (c ∷ cs) h =
    let (available, degraded) = read_conditions-last cs (read_condition c h) in
    (
      available ∙ ap (λ d. last_says "Available" d cs) (read-available c h),
      degraded ∙ ap (λ d. last_says "Degraded" d cs) (read-degraded c h),
    )

unhealthy-well :
    (o : ClusterOperator)
    → is_well o
      ≡ (is_excluded o.name || not (is_unhealthy (read_conditions o.conditions unknown_health)))
unhealthy-well o =
    let (available, degraded) = read_conditions-last o.conditions unknown_health in
    flags (is_excluded o.name) _ _ _ _ available degraded
  where
    flags : (x a d a' d' : Bool) → a ≡ a' → d ≡ d' → (x || (a' && not d')) ≡ (x || not (not a || d))
    flags x a d a' d' e f = ground arith

-- The code's verdict on a listing is that every operator is well.
pub verdict_on-all_well :
    (os : List ClusterOperator) → (verdict_on (unhealthy_operators os)).0 ≡ all_well os
unfolding unhealthy_operators all_well
verdict_on-all_well [] = refl
verdict_on-all_well (o ∷ os) =
    with_head (is_excluded o.name) (is_unhealthy (read_conditions o.conditions unknown_health)) _ _
      _ (unhealthy-well o) (verdict_on-all_well os)
  where
    with_head :
        (x u w : Bool) (m : Message) (ms : List Message)
        → w ≡ (x || not u)
        → (verdict_on ms).0 ≡ all_well os
        → (verdict_on (if x then ms else if u then m ∷ ms else ms)).0 ≡ (w && all_well os)
    with_head true u w m ms e h = rw e h
    with_head false true w m ms e h = rw e refl
    with_head false false w m ms e h = rw e h

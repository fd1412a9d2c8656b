-- ===== src/Infrastructure/Targets.antt =====
-- What the two edits of pkg/openshift/infrastructure.go make of the lists of the spec: the target
-- vCenters in, the source vCenter out.
use openshift_vsphere_migrat.Base.{
  ℕ, ◌+◌, String, ◌≡◌, refl, ap, ◌∙◌, inl, inr, Bool, true, false, not, List, [], ◌∷◌, ◌++◌, map,
  if◌then◌else◌, ◌==◌, string_eq, any, count, count-append, keep, Bool-cases, arith,
}
use openshift_vsphere_migrat.Base.Maps.{lookup, insert, any-insert_key}
use openshift_vsphere_migrat.Api.{FailureDomain}
use openshift_vsphere_migrat.Infrastructure.{
  VcenterSpec, VsphereSpec, MapRange, vcenter_map, datacenters_of, add_vcenter, add_vcenters,
  domain_spec, with_targets, without_source,
}

-- How often a list names a vCenter, and whether a target does.
abbrev pub vcenters_at : String → List VcenterSpec → ℕ
vcenters_at x vcs = count (λ vc. vc.server == x) vcs

abbrev pub serves : String → List VcenterSpec → Bool
serves x vcs = any (λ vc. vc.server == x) vcs

abbrev pub is_target : String → List FailureDomain → Bool
is_target x fds = any (λ fd. fd.server == x) fds

any-append :
    {A : Type 0} (p : A → Bool) (xs ys : List A)
    → any p (xs ++ ys) ≡ (if any p xs then true else any p ys)
any-append p [] ys = refl
any-append p (x ∷ xs) ys = ground (arith, any-append p xs ys)

count_none : {A : Type 0} (p : A → Bool) (xs : List A) → any p xs ≡ false → count p xs ≡ 0
count_none p [] h = refl
count_none p (x ∷ xs) h = ground (arith, count_none p xs)

keys-vcenter_map :
    (x : String) (fds : List FailureDomain) (m : List (String × List (String × Bool)))
    → any (λ e. e.0 == x) (vcenter_map fds m)
      ≡ (if any (λ e. e.0 == x) m then true else is_target x fds)
unfolding vcenter_map
keys-vcenter_map x [] m = ground arith
keys-vcenter_map x (fd ∷ fds) m =
    let m' =
      insert fd.server (insert fd.topology.datacenter true (datacenters_of (lookup fd.server m)))
        m in
    ground (
      arith,
      keys-vcenter_map x fds m',
      any-insert_key fd.server x
          (insert fd.topology.datacenter true (datacenters_of (lookup fd.server m))) m,
    )

module _ (range : MapRange) where
  abbrev expected : String → List (String × List (String × Bool)) → List VcenterSpec → ℕ
  expected x es vcs =
      if serves x vcs then vcenters_at x vcs else if any (λ e. e.0 == x) es then 1 else 0

  serves-add_vcenter :
      (x : String) (e : String × List (String × Bool)) (vcs : List VcenterSpec)
      → serves x (add_vcenter range e vcs)
        ≡ (if serves e.0 vcs then serves x vcs else if serves x vcs then true else e.0 == x)
  unfolding add_vcenter
  serves-add_vcenter x e vcs = elim (Bool-cases (serves e.0 vcs)) [
    | inl h ↦ rw h refl
    | inr h ↦ rw h (any-append (λ vc. vc.server == x) vcs _ ∙ ground arith)
  ]

  vcenters_at-add_vcenter :
      (x : String) (e : String × List (String × Bool)) (vcs : List VcenterSpec)
      → vcenters_at x (add_vcenter range e vcs) ≡ (
          if serves e.0 vcs
          then vcenters_at x vcs
          else vcenters_at x vcs + (if e.0 == x then 1 else 0))
  unfolding add_vcenter
  vcenters_at-add_vcenter x e vcs = elim (Bool-cases (serves e.0 vcs)) [
    | inl h ↦ rw h refl
    | inr h ↦ rw h (count-append (λ vc. vc.server == x) vcs _ ∙ ground arith)
  ]

  -- The first entry of a server adds it, and later ones find it.
  expected-add_vcenter :
      (x : String) (e : String × List (String × Bool)) (es : List (String × List (String × Bool)))
      (vcs : List VcenterSpec)
      → expected x es (add_vcenter range e vcs) ≡ expected x (e ∷ es) vcs
  expected-add_vcenter x e es vcs =
      chosen (serves x vcs) (serves e.0 vcs) (e.0 == x) (any (λ e. e.0 == x) es) (vcenters_at x vcs)
        _ _ (serves-add_vcenter x e vcs) (vcenters_at-add_vcenter x e vcs)
        (λ h. ap (λ y. serves y vcs) ((string_eq.beq_iff e.0 x).0 h))
        (count_none (λ vc. vc.server == x) vcs)
    where
      chosen :
          (b a c d : Bool) (n : ℕ) (b' : Bool) (n' : ℕ)
          → b' ≡ (if a then b else if b then true else c)
          → n' ≡ (if a then n else n + (if c then 1 else 0))
          → (c ≡ true → a ≡ b)
          → (b ≡ false → n ≡ 0)
          → (if b' then n' else if d then 1 else 0)
            ≡ (if b then n else if (if c then true else d) then 1 else 0)
      chosen b a c d n b' n' p q h k = ground arith

  vcenters_at-add_vcenters :
      (x : String) (es : List (String × List (String × Bool))) (vcs : List VcenterSpec)
      → vcenters_at x (add_vcenters range es vcs) ≡ expected x es vcs
  unfolding add_vcenters
  vcenters_at-add_vcenters x [] vcs =
      ground (arith, count_none (λ (vc : VcenterSpec). vc.server == x) vcs)
  vcenters_at-add_vcenters x (e ∷ es) vcs =
      vcenters_at-add_vcenters x es (add_vcenter range e vcs) ∙ expected-add_vcenter x e es vcs

  -- A range over the map visits exactly its entries.
  abbrev pub Visits : Type 0
  Visits =
      (p : String × List (String × Bool) → Bool) (es : List (String × List (String × Bool)))
      → any p (range.servers es) ≡ any p es

  -- The vCenters of the new list: the old ones as often as before, each target that was missing once.
  vcenters_at-with_targets :
      Visits
      → (x : String) (fds : List FailureDomain) (v : VsphereSpec)
      → vcenters_at x (with_targets range fds v).vcenters ≡ (
          if serves x v.vcenters
          then vcenters_at x v.vcenters
          else if is_target x fds
          then 1
          else 0)
  unfolding with_targets
  vcenters_at-with_targets visits x fds v =
      vcenters_at-add_vcenters x (range.servers (vcenter_map fds [])) v.vcenters
      ∙ ap (λ b. if serves x v.vcenters then vcenters_at x v.vcenters else if b then 1 else 0)
          (visits (λ e. e.0 == x) (vcenter_map fds []) ∙ keys-vcenter_map x fds [])

pub vcenters_at-keep :
    (source x : String) (vcs : List VcenterSpec)
    → vcenters_at x (keep (λ vc. not (vc.server == source)) vcs)
      ≡ (if source == x then 0 else vcenters_at x vcs)
vcenters_at-keep source x [] = ground arith
vcenters_at-keep source x (vc ∷ vcs) = ground (
  arith,
  string_eq.beq_iff vc.server source,
  string_eq.beq_iff vc.server x,
  string_eq.beq_iff source x,
  vcenters_at-keep source x vcs,
)

map-domain_spec : (fds : List FailureDomain) → map domain_spec fds ≡ fds
unfolding domain_spec
map-domain_spec [] = refl
map-domain_spec (fd ∷ fds) = ap (λ l. fd ∷ l) (map-domain_spec fds)

-- If the range over Go's map visits exactly its entries, then the spec to which the targets have been
-- added and from which the source has then been removed names no vCenter of the source's server, each
-- other vCenter of the old spec as often as that did, and each other target that the old spec did not
-- name exactly once; its failure domains are the old ones followed by the migration's, in order,
-- without those of the source.
pub without_source-with_targets :
    (range : MapRange)
    → Visits range
    → (source : String) (fds : List FailureDomain) (v : VsphereSpec)
    → ((x : String)
        → vcenters_at x (without_source source (with_targets range fds v)).vcenters ≡ (
            if source == x
            then 0
            else if serves x v.vcenters
            then vcenters_at x v.vcenters
            else if is_target x fds
            then 1
            else 0))
      × ((without_source source (with_targets range fds v)).failure_domains
          ≡ keep (λ fd. not (fd.server == source)) (v.failure_domains ++ fds))
unfolding without_source with_targets
without_source-with_targets range visits source fds v = (
  λ x.
      vcenters_at-keep source x (with_targets range fds v).vcenters
      ∙ ap (λ n. if source == x then 0 else n) (vcenters_at-with_targets range visits x fds v),
  ap (keep (λ fd. not (fd.server == source))) (domains range fds v),
)
  where
    domains :
        (range : MapRange) (fds : List FailureDomain) (v : VsphereSpec)
        → (with_targets range fds v).failure_domains ≡ v.failure_domains ++ fds
    domains range fds v = ap (λ l. v.failure_domains ++ l) (map-domain_spec fds)

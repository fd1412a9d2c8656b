-- ===== src/Phases/Cleanup/Repeated.antt =====
-- pkg/controller/phases/cleanup.go executed again after it has removed the source.
use openshift_vsphere_migrat.Base.{
  String, ◌≡◌, ◌≢◌, refl, sym, ap, ◌∙◌, not, List, ◌∷◌, some, ok, ◌==◌, string_eq, keep,
  if◌then◌else◌, beq_refl,
}
use openshift_vsphere_migrat.Base.Maps.{beq_of_ne}
use openshift_vsphere_migrat.Base.Exec.{◌>>=◌}
use openshift_vsphere_migrat.Infrastructure.{
  Infrastructure, InfrastructureClient, InfrastructureManager, VcenterSpec, VsphereSpec,
  without_source, get, get_source_vcenter, remove_source_vcenter, remove_source, update,
}
use openshift_vsphere_migrat.Infrastructure.Targets.{vcenters_at, vcenters_at-keep}
use openshift_vsphere_migrat.Api.{Time}
use openshift_vsphere_migrat.Phases.Passing.{
  PassesAt, PassesAt-pure, PassesAt-log, PassesAt-call, PassesAt-bind,
}
use openshift_vsphere_migrat.Phases.Cleanup.{clean_infrastructure}

-- A client that reads the infrastructure that is stored and stores what it is given.
pub record Stores {S : Type 0} (client : InfrastructureClient S) (stored : S → Infrastructure)
    : Type 0 where
  pub reads : (s : S) → client.get "cluster" s ≡ (ok (stored s), s)
  pub writes :
      (i : Infrastructure) (s : S) → (s' : S) × (client.update i s ≡ (ok i, s')) × (stored s' ≡ i)

module _ {S : Type 0} (now : S → Time) (manager : InfrastructureManager S)
    (stored : S → Infrastructure) (stores : Stores manager.client stored) where
  -- The infrastructure without the first vCenter of its spec.
  abbrev removed : String → VsphereSpec → S → Infrastructure
  removed server v s = record (stored s) { vsphere = some (without_source server v) }

  source_lem :
      (v : VsphereSpec) (a : VcenterSpec) (rest : List VcenterSpec) (s : S)
      → (stored s).vsphere ≡ some v
      → v.vcenters ≡ a ∷ rest
      → get_source_vcenter manager s ≡ (ok a, s)
  unfolding get_source_vcenter get ◌>>=◌
  source_lem v a rest s present first = rw (stores.reads s) (rw present (rw first refl))

  remove_lem :
      (v : VsphereSpec) (server : String) (s : S)
      → (stored s).vsphere ≡ some v
      → (s' : S) × (remove_source_vcenter manager (stored s) server s
          ≡ (ok (removed server v s), s'))
        × (stored s' ≡ removed server v s)
  unfolding remove_source_vcenter remove_source update
  remove_lem v server s present =
      let (s', q, w) = stores.writes (removed server v s) s in (s', rw present (rw q refl), w)

  -- One execution takes the first vCenter out.
  clean_infrastructure-first :
      (v : VsphereSpec) (a : VcenterSpec) (rest : List VcenterSpec) (s : S)
      → (stored s).vsphere ≡ some v
      → v.vcenters ≡ a ∷ rest
      → (s' : S) × PassesAt (clean_infrastructure now manager) s a.server s'
        × ((stored s').vsphere ≡ some (without_source a.server v))
  unfolding clean_infrastructure get
  clean_infrastructure-first v a rest s present first =
      let (s', q, w) = remove_lem v a.server s present in
      (
        s',
        PassesAt-bind _ _ s a s _ s' (PassesAt-call _ _ s a s (source_lem v a rest s present first))
            (PassesAt-bind _ _ s tt s _ s' (PassesAt-log _ _ _ _ s) (
              PassesAt-bind _ _ s (stored s) s _ s'
                (PassesAt-call _ _ s (stored s) s (stores.reads s))
                (PassesAt-bind _ _ s _ s' _ s' (PassesAt-call _ _ s _ s' q) (
                  PassesAt-bind _ _ s' tt s' _ s' (PassesAt-log _ _ _ _ s')
                    (PassesAt-pure a.server s'))))),
        ap (λ (i : Infrastructure). i.vsphere) w,
      )

  kept_next :
      (a b : VcenterSpec) (rest : List VcenterSpec)
      → a.server ≢ b.server
      → keep (λ vc. not (vc.server == a.server)) (a ∷ b ∷ rest)
        ≡ b ∷ keep (λ vc. not (vc.server == a.server)) rest
  kept_next a b rest apart =
      rw (beq_refl a.server) (rw (beq_of_ne b.server a.server (λ e. apart (sym e))) refl)

  -- Where the infrastructure names the source and then a vCenter of another server, and its client reads
  -- and stores it, the removal of the source succeeds; and when the phase is executed again in a world
  -- whose spec is the result, it takes that other vCenter for the source and removes it too.
  pub clean_infrastructure-again :
      (v : VsphereSpec) (a b : VcenterSpec) (rest : List VcenterSpec) (s t : S)
      → (stored s).vsphere ≡ some v
      → v.vcenters ≡ a ∷ b ∷ rest
      → a.server ≢ b.server
      → (stored t).vsphere ≡ some (without_source a.server v)
      → (s' : S) × (t' : S) × (w : VsphereSpec) × PassesAt
          (clean_infrastructure now manager)
          s
          a.server
          s'
        × ((stored s').vsphere ≡ some (without_source a.server v))
        × PassesAt (clean_infrastructure now manager) t b.server t'
        × ((stored t').vsphere ≡ some w)
        × (vcenters_at b.server w.vcenters ≡ 0)
  unfolding without_source
  clean_infrastructure-again v a b rest s t present first apart again =
      let (s', passes, after) = clean_infrastructure-first v a (b ∷ rest) s present first in
      let v' = without_source a.server v in
      let (t', passes', after') =
        clean_infrastructure-first v' b (keep (λ vc. not (vc.server == a.server)) rest) t again
          (ap (keep (λ vc. not (vc.server == a.server))) first ∙ kept_next a b rest apart) in
      (
        s',
        t',
        without_source b.server v',
        passes,
        after,
        passes',
        after',
        vcenters_at-keep b.server b.server v'.vcenters
            ∙ ap (λ c. if c then 0 else vcenters_at b.server v'.vcenters) (beq_refl b.server),
      )

-- ===== src/Tests/Infrastructure.antt =====
-- The edits of the Infrastructure object and of its definition on a concrete server.
use openshift_vsphere_migrat.Base.{
  String, ◌≡◌, refl, List, [], ◌∷◌, ◌++◌, none, some, ok, if◌then◌else◌, ◌==◌, string_eq, keep, not,
}
use openshift_vsphere_migrat.Base.Exec.{pure}
use openshift_vsphere_migrat.Api.{FailureDomain}
use openshift_vsphere_migrat.Infrastructure.Validations.{
  Schema, Properties, Crd, CrdVersion, strip, child,
}
use openshift_vsphere_migrat.Infrastructure.{
  Infrastructure, VcenterSpec, VsphereSpec, CrdClient, InfrastructureManager, MapRange,
  with_targets, without_source, strip_versions, strip_version,
  add_target_vcenter_with_crd_modification,
}
use openshift_vsphere_migrat.Infrastructure.Targets.{
  vcenters_at, serves, is_target, without_source-with_targets,
}
use openshift_vsphere_migrat.Infrastructure.Locking.{stamp, crd_stays_modified}
use openshift_vsphere_migrat.Base.Maps.{ne_of_beq}
use openshift_vsphere_migrat.Phases.Passing.{PassesAt}
use openshift_vsphere_migrat.Phases.Cleanup.{clean_infrastructure}
use openshift_vsphere_migrat.Phases.Cleanup.Repeated.{Stores, clean_infrastructure-again}
use openshift_vsphere_migrat.Tests.World.{fresh, domain}
use openshift_vsphere_migrat.Tests.Cell.{read, write, write-Locked}

abbrev old_domain : FailureDomain
old_domain = record domain { name = "source"; server = "vcenter-1" }

abbrev spec : VsphereSpec
spec = record {
  vcenters = record { server = "vcenter-1"; datacenters = "dc" ∷ [] } ∷ [];
  failure_domains = old_domain ∷ [];
}

abbrev pub as_stored : MapRange
as_stored = record { servers = λ m. m; datacenters = λ m. m }

without_source-with_targets_example :
    ((x : String)
      → vcenters_at x
          (without_source "vcenter-1" (with_targets as_stored (domain ∷ []) spec)).vcenters
        ≡ (if "vcenter-1" == x
            then 0
            else if serves x spec.vcenters
            then vcenters_at x spec.vcenters
            else if is_target x (domain ∷ [])
            then 1
            else 0))
    × ((without_source "vcenter-1" (with_targets as_stored (domain ∷ []) spec)).failure_domains
        ≡ keep (λ fd. not (fd.server == "vcenter-1")) (spec.failure_domains ++ domain ∷ []))
without_source-with_targets_example =
    without_source-with_targets as_stored (λ p es. refl) "vcenter-1" (domain ∷ []) spec

abbrev schema_of : List String → Schema
schema_of rules = Schema.node [] (
    Properties.property "spec"
      (Schema.node [] (
        Properties.property "platformSpec"
          (Schema.node [] (
            Properties.property "vsphere"
              (Schema.node [] (
                Properties.property "vcenters" (Schema.node rules Properties.empty)
                  Properties.empty))
              Properties.empty))
          Properties.empty))
      Properties.empty)

abbrev versions_of : List String → List CrdVersion
versions_of rules = record { name = "v1"; schema = some (schema_of rules) } ∷ []

abbrev definition : Crd
definition = record {
  name = "infrastructures.config.openshift.io";
  resource_version = "1";
  versions = versions_of ("vcenters cannot be added or removed once set" ∷ []);
}

abbrev version : Crd → String
version c = c.resource_version

abbrev crd_client : CrdClient Crd
crd_client = record { get = λ name. read version stamp; update = write version stamp }

abbrev pub infrastructure : Infrastructure
infrastructure = record { vsphere = some spec; infrastructure_name = "cluster-x" }

-- A codec for one definition.
abbrev manager : InfrastructureManager Crd
manager = record {
  client = record { get = λ name. pure infrastructure; update = pure };
  apiextensions_client = some crd_client;
  codec = record { marshal = λ c. ok "definition"; unmarshal = λ text. ok definition };
  range = as_stored;
}

crd_stays_modified_example :
    (add_target_vcenter_with_crd_modification manager infrastructure fresh definition).1
    ≡ record definition { versions = versions_of []; resource_version = "1+" }
unfolding strip_versions strip strip_version child write-Locked
crd_stays_modified_example =
    crd_stays_modified manager crd_client (λ s. s) refl (write-Locked version stamp) (λ i s. refl)
      infrastructure fresh definition (versions_of []) ("definition", refl, refl) refl

-- The world is the infrastructure.
abbrev stored_manager : InfrastructureManager Infrastructure
stored_manager = record {
  client = record { get = λ name s. (ok s, s); update = λ i s. (ok i, i) };
  apiextensions_client = none;
  codec = record { marshal = λ c. ok "definition"; unmarshal = λ text. ok definition };
  range = as_stored;
}

stores : Stores stored_manager.client (λ s. s)
stores = record { reads = λ s. refl; writes = λ i s. (i, refl, refl) }

abbrev source : VcenterSpec
source = record { server = "vcenter-1"; datacenters = "dc" ∷ [] }

abbrev target : VcenterSpec
target = record { server = "vcenter-2"; datacenters = "dc" ∷ [] }

abbrev both_vcenters : VsphereSpec
both_vcenters = record spec { vcenters = source ∷ target ∷ [] }

abbrev extended : Infrastructure
extended = record infrastructure { vsphere = some both_vcenters }

abbrev cleaned : Infrastructure
cleaned = record infrastructure {
  vsphere = some (record spec { vcenters = target ∷ []; failure_domains = [] });
}

clean_infrastructure-again_example :
    (s' : Infrastructure) × (t' : Infrastructure) × (w : VsphereSpec) × PassesAt
      (clean_infrastructure (λ s. 0) stored_manager)
      extended
      "vcenter-1"
      s'
    × (s'.vsphere ≡ cleaned.vsphere)
    × PassesAt (clean_infrastructure (λ s. 0) stored_manager) cleaned "vcenter-2" t'
    × (t'.vsphere ≡ some w)
    × (vcenters_at "vcenter-2" w.vcenters ≡ 0)
unfolding without_source
clean_infrastructure-again_example =
    clean_infrastructure-again (λ s. 0) stored_manager (λ s. s) stores both_vcenters source target
      [] extended cleaned refl refl (ne_of_beq "vcenter-1" "vcenter-2" refl) refl

-- ===== src/Infrastructure.antt =====
-- pkg/openshift/infrastructure.go: the InfrastructureManager.
pub mod Validations
pub mod Targets
pub mod Locking
use openshift_vsphere_migrat.Base.{
  String, Bool, true, false, ◌||◌, not, List, [], ◌∷◌, ◌++◌, Option, none, some, msg, lit, GoError,
  errorf, Result, ok, err, if◌then◌else◌, ◌==◌, string_eq, length, nat_eq, any, keep, map,
}
use openshift_vsphere_migrat.Base.Exec.{Exec, pure, raise, attempt, ◌>>=◌, ◌>>◌, wrap_error}
use openshift_vsphere_migrat.Base.Maps.{lookup, insert}
use openshift_vsphere_migrat.Api.{FailureDomain, Topology, Migration}
use openshift_vsphere_migrat.Infrastructure.Validations.{
  Schema, CrdVersion, Crd, strip, vcenters_path,
}

pub record VcenterSpec : Type 0 where
  pub server : String
  pub datacenters : List String

pub record VsphereSpec : Type 0 where
  pub vcenters : List VcenterSpec
  pub failure_domains : List FailureDomain

-- `vsphere` is `Spec.PlatformSpec.VSphere`, `infrastructure_name` stands in the status.
pub record Infrastructure : Type 0 where
  pub vsphere : Option VsphereSpec
  pub infrastructure_name : String

pub record InfrastructureClient (S : Type 0) : Type 0 where
  pub get : String → Exec S Infrastructure
  pub update : Infrastructure → Exec S Infrastructure

pub record CrdClient (S : Type 0) : Type 0 where
  pub get : String → Exec S Crd
  pub update : Crd → Exec S Crd

-- `json.Marshal` and `json.Unmarshal` on the definition.
pub record CrdCodec : Type 0 where
  pub marshal : Crd → Result String
  pub unmarshal : String → Result Crd

-- A `range` over a map visits its entries in an order that Go leaves open.
pub record MapRange : Type 0 where
  pub servers : List (String × List (String × Bool)) → List (String × List (String × Bool))
  pub datacenters : List (String × Bool) → List (String × Bool)

pub record InfrastructureManager (S : Type 0) : Type 0 where
  pub client : InfrastructureClient S
  pub apiextensions_client : Option (CrdClient S)
  pub codec : CrdCodec
  pub range : MapRange

abbrev infrastructure_name : String
infrastructure_name = "cluster"

abbrev pub crd_name : String
crd_name = "infrastructures.config.openshift.io"

abbrev datacenters_of : Option (List (String × Bool)) → List (String × Bool)
datacenters_of none = []
datacenters_of (some m) = m

-- `vCenterMap`: server, datacenter, true.
unfoldable pub vcenter_map :
    List FailureDomain → List (String × List (String × Bool)) → List (String × List (String × Bool))
vcenter_map [] m = m
vcenter_map (fd ∷ fds) m =
    vcenter_map fds (
      insert fd.server (insert fd.topology.datacenter true (datacenters_of (lookup fd.server m))) m)

module _ (range : MapRange) where
  unfoldable pub add_vcenter : String × List (String × Bool) → List VcenterSpec → List VcenterSpec
  add_vcenter (server, datacenters) vcenters =
      if any (λ vc. vc.server == server) vcenters
      then vcenters
      else vcenters
        ++ record { server = server; datacenters = map (λ e. e.0) (range.datacenters datacenters) }
          ∷ []

  unfoldable pub add_vcenters :
      List (String × List (String × Bool)) → List VcenterSpec → List VcenterSpec
  unfolding add_vcenter
  add_vcenters [] vcenters = vcenters
  add_vcenters (e ∷ es) vcenters = add_vcenters es (add_vcenter e vcenters)

-- The failure domain of the migration, as one of the infrastructure.
unfoldable pub domain_spec : FailureDomain → FailureDomain
domain_spec fd = record {
  name = fd.name;
  region = fd.region;
  zone = fd.zone;
  server = fd.server;
  topology = record {
    datacenter = fd.topology.datacenter;
    compute_cluster = fd.topology.compute_cluster;
    datastore = fd.topology.datastore;
    networks = fd.topology.networks;
    resource_pool = fd.topology.resource_pool;
    template = fd.topology.template;
    folder = fd.topology.folder;
  };
}

-- What `AddTargetVCenter` makes of the spec.
unfoldable pub with_targets : MapRange → List FailureDomain → VsphereSpec → VsphereSpec
unfolding vcenter_map add_vcenters domain_spec
with_targets range fds v = record {
  vcenters = add_vcenters range (range.servers (vcenter_map fds [])) v.vcenters;
  failure_domains = v.failure_domains ++ map domain_spec fds;
}

-- What `RemoveSourceVCenter` makes of the spec.
unfoldable pub without_source : String → VsphereSpec → VsphereSpec
without_source source v = record {
  vcenters = keep (λ vc. not (vc.server == source)) v.vcenters;
  failure_domains = keep (λ fd. not (fd.server == source)) v.failure_domains;
}

-- The loop over the versions, with `modified`.
unfoldable pub strip_version : CrdVersion → Option Schema → Bool × CrdVersion
strip_version v none = (false, v)
strip_version v (some s) = (true, record v { schema = some s })

abbrev stripped : Option Schema → Option Schema
stripped none = none
stripped (some s) = strip vcenters_path s

unfoldable pub strip_versions : List CrdVersion → Bool × List CrdVersion
unfolding strip_version strip
strip_versions [] = (false, [])
strip_versions (v ∷ vs) =
    let (modified, v') = strip_version v (stripped v.schema) in
    let (rest, vs') = strip_versions vs in (modified || rest, v' ∷ vs')

abbrev no_apiextensions : GoError
no_apiextensions =
    errorf (msg "apiextensionsClient not set - use NewInfrastructureManagerWithClients")

abbrev not_vsphere : GoError
not_vsphere = errorf (msg "infrastructure is not vSphere platform")

module _ {S : Type 0} (manager : InfrastructureManager S) where
  unfoldable pub get : Exec S Infrastructure
  get = manager.client.get infrastructure_name

  first_vcenter : Option VsphereSpec → Exec S VcenterSpec
  first_vcenter none = raise not_vsphere
  first_vcenter (some v) = elim v.vcenters [
    | [] ↦ raise (errorf (msg "no vCenters configured in infrastructure"))
    | vc ∷ vcs ↦ pure vc
  ]

  unfoldable pub get_source_vcenter : Exec S VcenterSpec
  unfolding get first_vcenter
  get_source_vcenter = do
    infra ← wrap_error (msg "failed to get infrastructure") get
    first_vcenter infra.vsphere

  unfoldable pub update : Infrastructure → Exec S Infrastructure
  update infra = wrap_error (msg "failed to update infrastructure") (manager.client.update infra)

  unfoldable pub add_targets :
      Infrastructure → Migration → Option VsphereSpec → Exec S Infrastructure
  unfolding update with_targets
  add_targets infra m none = raise not_vsphere
  add_targets infra m (some v) =
      if length m.spec.failure_domains == 0
      then raise (errorf (msg "no failure domains specified in migration spec"))
      else update
          (record infra { vsphere = some (with_targets manager.range m.spec.failure_domains v) })

  unfoldable pub add_target_vcenter : Infrastructure → Migration → Exec S Infrastructure
  unfolding add_targets
  add_target_vcenter infra m = add_targets infra m infra.vsphere

  unfoldable pub remove_source :
      Infrastructure → String → Option VsphereSpec → Exec S Infrastructure
  unfolding update without_source
  remove_source infra source none = raise not_vsphere
  remove_source infra source (some v) =
      update (record infra { vsphere = some (without_source source v) })

  unfoldable pub remove_source_vcenter : Infrastructure → String → Exec S Infrastructure
  unfolding remove_source
  remove_source_vcenter infra source = remove_source infra source infra.vsphere

  id_of : String → Exec S String
  id_of name = if name == "" then raise (errorf (msg "infrastructure ID is empty")) else pure name

  unfoldable pub get_infrastructure_id : Exec S String
  unfolding get id_of
  get_infrastructure_id = do infra ← get; id_of infra.infrastructure_name

  first_domain : Option VsphereSpec → Exec S FailureDomain
  first_domain none = raise not_vsphere
  first_domain (some v) = elim v.failure_domains [
    | [] ↦ raise (errorf (msg "no failure domains configured in infrastructure"))
    | fd ∷ fds ↦ pure fd
  ]

  unfoldable pub get_source_failure_domain : Exec S FailureDomain
  unfolding get first_domain
  get_source_failure_domain = do
    infra ← wrap_error (msg "failed to get infrastructure") get
    first_domain infra.vsphere

  unfoldable pub backup_crd : Option (CrdClient S) → Exec S String
  backup_crd none = raise no_apiextensions
  backup_crd (some api) = do
    crd ← wrap_error (msg "failed to get Infrastructure CRD") (api.get crd_name)
    wrap_error (msg "failed to marshal CRD") (λ s. (manager.codec.marshal crd, s))

  unfoldable pub backup_infrastructure_crd : Exec S String
  unfolding backup_crd
  backup_infrastructure_crd = backup_crd manager.apiextensions_client

  unfoldable pub write_stripped : CrdClient S → Crd → Bool × List CrdVersion → Exec S (Unit {0})
  write_stripped api crd (false, versions) = pure tt
  write_stripped api crd (true, versions) =
      wrap_error (msg "failed to update Infrastructure CRD")
        (api.update (record crd { versions = versions }))
      >> pure tt

  unfoldable pub modify_crd : Option (CrdClient S) → Exec S (Unit {0})
  unfolding write_stripped strip_versions
  modify_crd none = raise no_apiextensions
  modify_crd (some api) = do
    crd ← wrap_error (msg "failed to get Infrastructure CRD") (api.get crd_name)
    write_stripped api crd (strip_versions crd.versions)

  unfoldable pub modify_infrastructure_crd : Exec S (Unit {0})
  unfolding modify_crd
  modify_infrastructure_crd = modify_crd manager.apiextensions_client

  unfoldable pub restore_crd : String → Option (CrdClient S) → Exec S (Unit {0})
  restore_crd backup none = raise no_apiextensions
  restore_crd backup (some api) = do
    crd ←
        wrap_error (msg "failed to unmarshal CRD backup") (λ s. (manager.codec.unmarshal backup, s))
    wrap_error (msg "failed to restore Infrastructure CRD") (api.update crd)
    pure tt

  unfoldable pub restore_infrastructure_crd : String → Exec S (Unit {0})
  unfolding restore_crd
  restore_infrastructure_crd backup = restore_crd backup manager.apiextensions_client

  -- The error of the restoration is logged only, whether the addition failed or not.
  unfoldable pub restore_after : String → Result Infrastructure → Exec S Infrastructure
  unfolding restore_infrastructure_crd
  restore_after backup r = do attempt (restore_infrastructure_crd backup); (λ s. (r, s))

  unfoldable pub add_target_vcenter_with_crd_modification :
      Infrastructure → Migration → Exec S Infrastructure
  unfolding backup_infrastructure_crd modify_infrastructure_crd add_target_vcenter restore_after
  add_target_vcenter_with_crd_modification infra m = do
    backup ← wrap_error (msg "failed to backup CRD") backup_infrastructure_crd
    wrap_error (msg "failed to modify CRD") modify_infrastructure_crd
    r ← attempt (add_target_vcenter infra m)
    restore_after backup r

-- ===== src/Infrastructure/Validations.antt =====
-- The definition of the Infrastructure resource, with the tree of its schema: what
-- `ModifyInfrastructureCRDToAllowVCenterChanges` of pkg/openshift/infrastructure.go walks through.
use openshift_vsphere_migrat.Base.{
  String, List, [], ◌∷◌, Option, none, some, if◌then◌else◌, ◌==◌, string_eq,
}

-- `JSONSchemaProps`: the texts of its `x-kubernetes-validations`, and its properties by name.
mutual
  pub data Schema : Type 0 where
    node : List String → Properties → Schema

  pub data Properties : Type 0 where
    empty : Properties
    property : String → Schema → Properties → Properties

-- The schema is `none` where either of the pointers to it is nil.
pub record CrdVersion : Type 0 where
  pub name : String
  pub schema : Option Schema

pub record Crd : Type 0 where
  pub name : String
  pub resource_version : String
  pub versions : List CrdVersion

unfoldable pub child : String → Properties → Option Schema
child k empty = none
child k (property j s ps) = if j == k then some s else child k ps

unfoldable pub put : String → Schema → Properties → Properties
put k s empty = property k s empty
put k s (property j t ps) = if j == k then property k s ps else property j t (put k s ps)

abbrev without_validations : List String → Properties → Option Schema
without_validations [] ps = none
without_validations (v ∷ vs) ps = some (node [] ps)

abbrev rebuilt : List String → String → Properties → Option Schema → Option Schema
rebuilt vs k ps none = none
rebuilt vs k ps (some s) = some (node vs (put k s ps))

abbrev and_then : (Schema → Option Schema) → Option Schema → Option Schema
and_then f none = none
and_then f (some s) = f s

-- The schema with the validations at the end of a path removed, or `none` if nothing is there.
unfoldable pub strip : List String → Schema → Option Schema
unfolding child put
strip [] (node vs ps) = without_validations vs ps
strip (k ∷ ks) (node vs ps) = rebuilt vs k ps (and_then (strip ks) (child k ps))

abbrev pub vcenters_path : List String
vcenters_path = "spec" ∷ "platformSpec" ∷ "vsphere" ∷ "vcenters" ∷ []

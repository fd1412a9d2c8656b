-- ===== src/Conditions.antt =====
-- pkg/util/conditions.go
pub mod Laws
use openshift_vsphere_migrat.Base.{
  ℕ, String, Bool, true, false, List, [], ◌∷◌, Option, none, some, Message, if◌then◌else◌, ◌==◌,
  string_eq,
}
use openshift_vsphere_migrat.Api.{Time, Condition, Migration, Status, condition_true}

-- The loop of `SetCondition`: the first condition of the type is written over, or one is added.
set_first : Condition → List Condition → List Condition
set_first c [] = c ∷ []
set_first c (d ∷ ds) = if d.kind == c.kind then c ∷ ds else d ∷ set_first c ds

-- Every field of a condition is written, so an update is a replacement.
unfoldable pub set_condition : Time → Migration → String → String → String → Message → Migration
unfolding set_first
set_condition now m kind status reason message =
    let c : Condition = record {
      kind = kind;
      status = status;
      reason = reason;
      message = message;
      last_transition_time = now;
      observed_generation = m.generation;
    } in
    record m { status = record m.status { conditions = set_first c m.status.conditions } }

find_kind : String → List Condition → Option Condition
find_kind kind [] = none
find_kind kind (d ∷ ds) = if d.kind == kind then some d else find_kind kind ds

unfoldable pub get_condition : Migration → String → Option Condition
unfolding find_kind
get_condition m kind = find_kind kind m.status.conditions

true_of_kind : String → List Condition → Bool
true_of_kind kind [] = false
true_of_kind kind (d ∷ ds) =
    if d.kind == kind then d.status == condition_true else true_of_kind kind ds

unfoldable pub is_condition_true : Migration → String → Bool
unfolding true_of_kind
is_condition_true m kind = true_of_kind kind m.status.conditions

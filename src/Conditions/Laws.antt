-- ===== src/Conditions/Laws.antt =====
-- What `SetCondition` does to what `GetCondition` and `IsConditionTrue` read.
use openshift_vsphere_migrat.Base.{
  String, ◌≡◌, refl, Bool, true, false, List, [], ◌∷◌, Option, none, some, Message, if◌then◌else◌,
  ◌==◌, string_eq, arith, eq_iff, any,
}
use openshift_vsphere_migrat.Api.{Time, Condition, Migration, condition_true}
use openshift_vsphere_migrat.Conditions.{
  set_first, set_condition, find_kind, get_condition, true_of_kind, is_condition_true,
}

find_kind-set_first :
    (c : Condition) (kind : String) (ds : List Condition)
    → find_kind kind (set_first c ds) ≡ (if c.kind == kind then some c else find_kind kind ds)
unfolding find_kind set_first
find_kind-set_first c kind [] = refl
find_kind-set_first c kind (d ∷ ds) = ground (
  arith,
  find_kind-set_first c kind ds,
  eq_iff d.kind c.kind,
  eq_iff d.kind kind,
  eq_iff c.kind kind,
)

-- Reading a condition after a write: the written one of its type, the old one of any other.
pub get_condition-set_condition :
    (now : Time) (m : Migration) (kind status reason : String) (message : Message) (other : String)
    → get_condition (set_condition now m kind status reason message) other ≡ (
        if kind == other
        then some (record {
          kind = kind;
          status = status;
          reason = reason;
          message = message;
          last_transition_time = now;
          observed_generation = m.generation;
        })
        else get_condition m other)
unfolding get_condition set_condition
get_condition-set_condition now m kind status reason message other =
    find_kind-set_first _ other m.status.conditions

-- The condition is there, with the status True.
abbrev pub shows_true : Option Condition → Bool
shows_true none = false
shows_true (some c) = c.status == condition_true

true_of_kind_lem :
    (kind : String) (ds : List Condition) → true_of_kind kind ds ≡ shows_true (find_kind kind ds)
unfolding true_of_kind find_kind
true_of_kind_lem kind [] = refl
true_of_kind_lem kind (d ∷ ds) = ground (arith, true_of_kind_lem kind ds, eq_iff d.kind kind)

-- `IsConditionTrue` says that `GetCondition` finds a condition of the type whose status is True.
pub is_condition_true-get_condition :
    (m : Migration) (kind : String) → is_condition_true m kind ≡ shows_true (get_condition m kind)
unfolding is_condition_true get_condition
is_condition_true-get_condition m kind = true_of_kind_lem kind m.status.conditions

-- No two conditions of a list have one type.
abbrev pub has_kind : String → List Condition → Bool
has_kind kind = any (λ (d : Condition). d.kind == kind)

abbrev pub Distinct : List Condition → Type 0
Distinct [] = Unit
Distinct (d ∷ ds) = (has_kind d.kind ds ≡ false) × Distinct ds

has_kind-set_first :
    (c : Condition) (kind : String) (ds : List Condition)
    → has_kind kind (set_first c ds) ≡ (if c.kind == kind then true else has_kind kind ds)
unfolding set_first
has_kind-set_first c kind [] = refl
has_kind-set_first c kind (d ∷ ds) = ground (
  arith,
  has_kind-set_first c kind ds,
  eq_iff d.kind c.kind,
  eq_iff d.kind kind,
  eq_iff c.kind kind,
)

set_first-Distinct : (c : Condition) (ds : List Condition) → Distinct ds → Distinct (set_first c ds)
unfolding set_first
set_first-Distinct c [] h = (refl, tt)
set_first-Distinct c (d ∷ ds) h = ground (
  arith,
  has_kind-set_first c d.kind ds,
  set_first-Distinct c ds h.1,
  eq_iff d.kind c.kind,
  eq_iff c.kind d.kind,
)

-- If no two conditions of a status have one type, then none have after a condition is written.
pub set_condition-Distinct :
    (now : Time) (m : Migration) (kind status reason : String) (message : Message)
    → Distinct m.status.conditions
    → Distinct (set_condition now m kind status reason message).status.conditions
unfolding set_condition
set_condition-Distinct now m kind status reason message h =
    set_first-Distinct _ m.status.conditions h

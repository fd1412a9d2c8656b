-- ===== src/Operators.antt =====
-- pkg/openshift/operators.go: the OperatorManager.
pub mod Verdict
use openshift_vsphere_migrat.Base.{
  ℕ, String, Bool, true, false, ◌&&◌, ◌||◌, not, List, [], ◌∷◌, ◌++◌, Option, none, some, Message,
  msg, lit, Result, ok, err, if◌then◌else◌, ◌==◌, string_eq, any, length, nat_eq,
}
use openshift_vsphere_migrat.Base.Exec.{Exec, pure, ◌>>=◌, wrap_error}
use openshift_vsphere_migrat.Api.{Duration}
use openshift_vsphere_migrat.Ticker.{Ticker, wait}

-- `ClusterOperatorStatusCondition`. In the source, `Type` and `Status`.
pub record OperatorCondition : Type 0 where
  pub kind : String
  pub status : String
  pub message : String

pub record ClusterOperator : Type 0 where
  pub name : String
  pub conditions : List OperatorCondition

pub record OperatorClient (S : Type 0) : Type 0 where
  pub list : Exec S (List ClusterOperator)
  pub get : String → Exec S ClusterOperator
  pub ticker : Ticker S

-- The three flags of the loop.
pub record Health : Type 0 where
  pub available : Bool
  pub degraded : Bool
  pub progressing : Bool

abbrev pub is_true : OperatorCondition → Bool
is_true c = c.status == "True"

-- The `switch` on the condition's type.
unfoldable pub read_condition : OperatorCondition → Health → Health
read_condition c h =
    if c.kind == "Available"
    then record h { available = is_true c }
    else if c.kind == "Degraded"
    then record h { degraded = is_true c }
    else if c.kind == "Progressing"
    then record h { progressing = is_true c }
    else h

unfoldable pub read_conditions : List OperatorCondition → Health → Health
unfolding read_condition
read_conditions [] h = h
read_conditions (c ∷ cs) h = read_conditions cs (read_condition c h)

abbrev pub unknown_health : Health
unknown_health = record { available = false; degraded = false; progressing = false }

-- `ExcludedOperators`
abbrev pub is_excluded : String → Bool
is_excluded name = name == "machine-config"

abbrev pub is_unhealthy : Health → Bool
is_unhealthy h = not h.available || h.degraded

-- `%v` of a flag.
abbrev flag : Bool → String
flag true = "true"
flag false = "false"

abbrev describe : String → Health → Message
describe name h =
    lit name
    ∷ lit " (available="
    ∷ lit (flag h.available)
    ∷ lit ", degraded="
    ∷ lit (flag h.degraded)
    ∷ lit ", progressing="
    ∷ lit (flag h.progressing)
    ∷ lit ")"
    ∷ []

-- The loop over the operators.
unfoldable pub unhealthy_operators : List ClusterOperator → List Message
unfolding read_conditions
unhealthy_operators [] = []
unhealthy_operators (o ∷ os) =
    let rest = unhealthy_operators os in
    let health = read_conditions o.conditions unknown_health in
    if is_excluded o.name
    then rest
    else if is_unhealthy health
    then describe o.name health ∷ rest
    else rest

abbrev pub verdict_on : List Message → Bool × List Message
verdict_on [] = (true, [])
verdict_on (m ∷ ms) = (false, m ∷ ms)

-- The flags and the message of `IsOperatorHealthy`.
pub record Finding : Type 0 where
  pub available : Bool
  pub degraded : Bool
  pub message : Message

unfoldable pub find_condition : OperatorCondition → Finding → Finding
find_condition c f =
    if c.kind == "Available"
    then record f {
      available = is_true c;
      message = if is_true c then f.message else lit "Not available: " ∷ lit c.message ∷ [];
    }
    else if c.kind == "Degraded"
    then record f {
      degraded = is_true c;
      message = if is_true c then lit "Degraded: " ∷ lit c.message ∷ [] else f.message;
    }
    else f

unfoldable pub find_conditions : List OperatorCondition → Finding → Finding
unfolding find_condition
find_conditions [] f = f
find_conditions (c ∷ cs) f = find_conditions cs (find_condition c f)

module _ {S : Type 0} (client : OperatorClient S) (turns : ℕ) where
  unfoldable pub check_all_operators_healthy : Exec S (Bool × List Message)
  unfolding unhealthy_operators
  check_all_operators_healthy = do
    operators ← wrap_error (msg "failed to list cluster operators") client.list
    pure (verdict_on (unhealthy_operators operators))

  unfoldable pub healthy_look : Exec S (Option (Unit {0}))
  unfolding check_all_operators_healthy
  healthy_look = do
    verdict ← check_all_operators_healthy
    pure (if verdict.0 then some tt else none)

  unfoldable pub wait_for_operators_healthy : Duration → Exec S (Unit {0})
  unfolding healthy_look
  wait_for_operators_healthy timeout =
      wait client.ticker healthy_look (msg "timeout waiting for operators to become healthy")
        timeout turns

  unfoldable pub get_operator : String → Exec S ClusterOperator
  get_operator name = client.get name

  unfoldable pub condition_look : String → String → String → Exec S (Option (Unit {0}))
  unfolding get_operator
  condition_look name kind status = do
    operator ← get_operator name
    pure (
        if any (λ c. c.kind == kind && c.status == status) operator.conditions
        then some tt
        else none)

  unfoldable pub wait_for_operator_condition :
      String → String → String → Duration → Exec S (Unit {0})
  unfolding condition_look
  wait_for_operator_condition name kind status timeout =
      wait client.ticker (condition_look name kind status)
        (lit "timeout waiting for operator "
          ∷ lit name
          ∷ lit " condition "
          ∷ lit kind
          ∷ lit "="
          ∷ lit status
          ∷ [])
        timeout turns

  unfoldable pub is_operator_healthy : String → Exec S (Bool × Message)
  unfolding get_operator find_conditions
  is_operator_healthy name = do
    operator ← get_operator name
    let f =
        find_conditions operator.conditions
          (record { available = false; degraded = false; message = [] })
    pure (f.available && not f.degraded, f.message)

-- ===== src/Base/Errors.antt =====
-- Go's errors. A formatted text is kept as the list of its parts; `%w` keeps the wrapped error.
use Prim.Native.Nat.{ℕ}
use Prim.Native.String.{String}
use mathlib.Core.Bool.{Bool, true, false}
use mathlib.Core.Option.{Option, none, some}
use mathlib.Core.List.{List, [], ◌∷◌, ◌++◌}

-- What `fmt.Sprintf` joins: literal text and `%s`, `%d`, and a duration's `%v`.
pub data Part : Type 0 where
  lit : String → Part
  number : ℕ → Part
  duration : ℕ → Part

abbrev pub Message : Type 0
Message = List Part

abbrev pub msg : String → Message
msg s = lit s ∷ []

-- The reason of an API server's answer, as `apierrors.IsNotFound` and its kin read it.
pub data Reason : Type 0 where
  not_found already_exists timeout server_timeout too_many_requests service_unavailable : Reason
  other : Reason

pub data GoError : Type 0 where
  errorf : Message → GoError
  wrapped : Message → GoError → GoError
  api : Reason → String → GoError
  deadline_exceeded context_canceled : GoError
  -- A run-time panic.
  panicked : String → GoError

-- `err.Error()`
unfoldable pub error_text : GoError → Message
error_text (errorf m) = m
error_text (wrapped m e) = m ++ lit ": " ∷ error_text e
error_text (api r s) = lit s ∷ []
error_text deadline_exceeded = lit "context deadline exceeded" ∷ []
error_text context_canceled = lit "context canceled" ∷ []
error_text (panicked s) = lit s ∷ []

-- The reason that the API helpers find through `errors.As`.
unfoldable pub reason : GoError → Option Reason
reason (errorf m) = none
reason (wrapped m e) = reason e
reason (api r s) = some r
reason deadline_exceeded = none
reason context_canceled = none
reason (panicked s) = none

abbrev is_reason_not_found : Option Reason → Bool
is_reason_not_found (some Reason.not_found) = true
is_reason_not_found _ = false

-- `errors.IsNotFound`
abbrev pub is_not_found : GoError → Bool
is_not_found e = is_reason_not_found (reason e)

abbrev is_reason_already_exists : Option Reason → Bool
is_reason_already_exists (some Reason.already_exists) = true
is_reason_already_exists _ = false

-- `errors.IsAlreadyExists`
abbrev pub is_already_exists : GoError → Bool
is_already_exists e = is_reason_already_exists (reason e)

-- A Go function's `(A, error)`.
pub data Result {ℓ} (A : Type ℓ) : Type ℓ where
  ok : A → Result A
  err : GoError → Result A

-- ===== src/Base/Exec.antt =====
-- Code that reads and writes a world and may return an error. What was written before the error
-- stays written, so the world comes back beside the error too.
use mathlib.Core.Option.{Option, none, some}
use openshift_vsphere_migrat.Base.Errors.{GoError, Result, ok, err, Message, wrapped}

abbrev pub Exec {ℓ} : Type ℓ → Type ℓ → Type ℓ
Exec S A = S → Result A × S

module _ {ℓ} {S A : Type ℓ} where
  abbrev pub pure : A → Exec S A
  pure a s = (ok a, s)

  abbrev pub raise : GoError → Exec S A
  raise e s = (err e, s)

  -- Reads the world, as the clock does.
  abbrev pub gets : (S → A) → Exec S A
  gets f s = (ok (f s), s)

  -- A call whose error the caller looks at itself.
  abbrev pub attempt : Exec S A → Exec S (Result A)
  attempt m s = let (r, s') = m s in (ok r, s')

module _ {ℓ κ} {A : Type ℓ} {B : Type κ} {S : Type ℓ} where
  abbrev pub continue : Result A → (A → S → Result B × S) → S → Result B × S
  continue (ok a) f s = f a s
  continue (err e) f s = (err e, s)

module _ {ℓ} {S A B : Type ℓ} where
  infixl 10 ◌>>=◌ ◌>>◌
  unfoldable pub ◌>>=◌ : Exec S A → (A → Exec S B) → Exec S B
  ◌>>=◌ m f s = let (r, s') = m s in continue r f s'

  abbrev pub ◌>>◌ : Exec S A → Exec S B → Exec S B
  m >> n = m >>= λ _. n

-- `if err != nil { return fmt.Errorf("…: %w", err) }`
abbrev pub wrap_result {ℓ} : {A : Type ℓ} → Message → Result A → Result A
wrap_result m (ok a) = ok a
wrap_result m (err e) = err (wrapped m e)

abbrev pub wrap_error {ℓ} : {S A : Type ℓ} → Message → Exec S A → Exec S A
wrap_error m c s = let (r, s') = c s in (wrap_result m r, s')

-- The error of a call that returns only an error.
abbrev pub error_of {ℓ} : {A : Type ℓ} → Result A → Option GoError
error_of (ok a) = none
error_of (err e) = some e

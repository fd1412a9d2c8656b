-- ===== src/Base/Maps.antt =====
-- Go's maps with string keys, as association lists. A nil map reads as the empty one.
use Prim.Native.String.{String}
use mathlib.Core.Path.{◌≡◌, refl, sym, ◌∙◌}
use mathlib.Core.Logic.{◌≢◌, inl, inr}
use mathlib.Core.Bool.{Bool, true, false}
use mathlib.Core.Option.{Option, none, some}
use mathlib.Core.List.{List, [], ◌∷◌}
use native.Mathlib.Omega.{arith}
use openshift_vsphere_migrat.Base.Lists.{any}
use openshift_vsphere_migrat.Base.Tests.{if◌then◌else◌, ◌==◌, string_eq, beq_refl, Bool-cases}

-- Different texts are not `==`.
pub beq_of_ne : (k j : String) → k ≢ j → (k == j) ≡ false
beq_of_ne k j h = elim (Bool-cases (k == j)) [
  | inl e ↦ absurd (h ((string_eq.beq_iff k j).0 e))
  | inr e ↦ e
]

pub ne_of_beq : (k j : String) → (k == j) ≡ false → k ≢ j
ne_of_beq k j h e =
    let true_false : ◌≡◌ {A = Bool} true false = sym ((string_eq.beq_iff k j).1 e) ∙ h in cc

module _ {ℓ} {V : Type ℓ} where
  abbrev pub lookup : String → List (String × V) → Option V
  lookup k [] = none
  lookup k ((j, v) ∷ m) = if j == k then some v else lookup k m

  -- `m[k] = v`
  abbrev pub insert : String → V → List (String × V) → List (String × V)
  insert k v [] = (k, v) ∷ []
  insert k v ((j, w) ∷ m) = if j == k then (k, v) ∷ m else (j, w) ∷ insert k v m

  -- `delete(m, k)`
  abbrev pub remove : String → List (String × V) → List (String × V)
  remove k [] = []
  remove k ((j, w) ∷ m) = let rest = remove k m in if j == k then rest else (j, w) ∷ rest

  pub lookup-insert :
      (k j : String) (v : V) (m : List (String × V))
      → lookup j (insert k v m) ≡ (if k == j then some v else lookup j m)
  lookup-insert k j v [] = refl
  lookup-insert k j v ((i, w) ∷ m) = ground (
    arith,
    string_eq.beq_iff k j,
    string_eq.beq_iff i k,
    string_eq.beq_iff i j,
    lookup-insert k j v m,
  )

  pub lookup-remove :
      (k j : String) (m : List (String × V))
      → lookup j (remove k m) ≡ (if k == j then none else lookup j m)
  lookup-remove k j [] = ground arith
  lookup-remove k j ((i, w) ∷ m) = ground (
    arith,
    string_eq.beq_iff k j,
    string_eq.beq_iff i k,
    string_eq.beq_iff i j,
    lookup-remove k j m,
  )

  pub lookup-insert_self :
      (k : String) (v : V) (m : List (String × V)) → lookup k (insert k v m) ≡ some v
  lookup-insert_self k v m = rw (lookup-insert k k v m, beq_refl k) refl

  pub lookup-insert_other :
      (k j : String) (v : V) (m : List (String × V)) → k ≢ j → lookup j (insert k v m) ≡ lookup j m
  lookup-insert_other k j v m h = rw (lookup-insert k j v m, beq_of_ne k j h) refl

  -- The keys of a map after a write.
  pub any-insert_key :
      (k x : String) (v : V) (m : List (String × V))
      → any (λ e. e.0 == x) (insert k v m) ≡ (if any (λ e. e.0 == x) m then true else k == x)
  any-insert_key k x v [] = ground arith
  any-insert_key k x v ((i, w) ∷ m) = ground (
    arith,
    string_eq.beq_iff k x,
    string_eq.beq_iff i k,
    string_eq.beq_iff i x,
    any-insert_key k x v m,
  )

  pub lookup-remove_self : (k : String) (m : List (String × V)) → lookup k (remove k m) ≡ none
  lookup-remove_self k m = rw (lookup-remove k k m, beq_refl k) refl

  pub lookup-remove_other :
      (k j : String) (m : List (String × V)) → k ≢ j → lookup j (remove k m) ≡ lookup j m
  lookup-remove_other k j m h = rw (lookup-remove k j m, beq_of_ne k j h) refl

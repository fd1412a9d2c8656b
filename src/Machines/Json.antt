-- ===== src/Machines/Json.antt =====
-- The values of a provider spec: Go's `interface{}` as `encoding/json` fills it.
use openshift_vsphere_migrat.Base.{
  ℕ, String, Bool, Option, none, some, Result, if◌then◌else◌, ◌==◌, string_eq, ◌≡◌, ◌≢◌, refl,
  beq_refl, arith,
}
use openshift_vsphere_migrat.Base.Maps.{beq_of_ne}

mutual
  pub data Json : Type 0 where
    null : Json
    boolean : Bool → Json
    number : ℕ → Json
    text : String → Json
    array : Items → Json
    object : Fields → Json

  pub data Items : Type 0 where
    nil : Items
    item : Json → Items → Items

  -- `map[string]interface{}`
  pub data Fields : Type 0 where
    empty : Fields
    field : String → Json → Fields → Fields

unfoldable pub get : String → Fields → Option Json
get k empty = none
get k (field j v fs) = if j == k then some v else get k fs

-- `m[k] = v`
unfoldable pub set : String → Json → Fields → Fields
set k v empty = field k v empty
set k v (field j w fs) = if j == k then field k v fs else field j w (set k v fs)

abbrev pub as_object : Option Json → Option Fields
as_object (some (object fs)) = some fs
as_object _ = none

abbrev pub as_text : Option Json → Option String
as_text (some (text s)) = some s
as_text _ = none

abbrev pub get_in : String → Option Fields → Option Json
get_in k none = none
get_in k (some fs) = get k fs

-- The object under a key, `m[k].(map[string]interface{})`.
abbrev pub object_at : String → Fields → Option Fields
object_at k fs = as_object (get k fs)

-- The text under two keys.
unfoldable pub text_at : String → String → Fields → Option String
unfolding get
text_at k j fs = as_text (get_in j (object_at k fs))

-- `json.Unmarshal` into such a map, and `json.Marshal` of it.
pub record JsonCodec : Type 0 where
  pub unmarshal : String → Result Fields
  pub marshal : Fields → Result String

pub get-set_self : (k : String) (v : Json) (fs : Fields) → get k (set k v fs) ≡ some v
unfolding get set
get-set_self k v empty = rw (beq_refl k) refl
get-set_self k v (field j w fs) =
    ground (arith, string_eq.beq_iff j k, beq_refl k, get-set_self k v fs)

pub get-set_other : (k j : String) (v : Json) (fs : Fields) → k ≢ j → get j (set k v fs) ≡ get j fs
unfolding get set
get-set_other k j v empty h = rw (beq_of_ne k j h) refl
get-set_other k j v (field i w fs) h =
    ground (
      arith,
      string_eq.beq_iff i k,
      string_eq.beq_iff i j,
      beq_of_ne k j h,
      get-set_other k j v fs h,
    )

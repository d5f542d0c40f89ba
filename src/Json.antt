-- ===== src/Json.antt =====
-- `serde_json::Value` with the accessors that the program calls. The parser itself is a parameter
-- wherever it is used.
use ocpp_proxy.Base.{
  ℕ, zero, suc, ◌<◌, ◌^◌, ◌-◌, ltb, String, Option, none, some, List, [], ◌∷◌, Bool, ◌==◌,
  if◌then◌else◌, get_elem?, option_bind,
}
use ocpp_proxy.Base.Float.{F64}
pub mod Int
use Int.{ℤ, pos, negsuc}

-- An unsigned integer, the negative integer -(n + 1), or a float.
pub data Number : Type 0 where
  unsigned : ℕ → Number
  negative : ℕ → Number
  float : F64 → Number

mutual
  pub data Json : Type 0 where
    null : Json
    bool : Bool → Json
    number : Number → Json
    string : String → Json
    object : Members → Json
    array : Values → Json

  -- the entries of an object, each with its key
  pub data Members : Type 0 where
    no_members : Members
    member_then : String → Json → Members → Members

  pub data Values : Type 0 where
    no_values : Values
    value_then : Json → Values → Values

abbrev pub values : Values → List Json
values no_values = []
values (value_then v vs) = v ∷ values vs

abbrev pub from_values : List Json → Values
from_values [] = no_values
from_values (v ∷ vs) = value_then v (from_values vs)

-- `json!([..])` and `json!({..})`
abbrev pub list : List Json → Json
list vs = array (from_values vs)

abbrev pub from_members : List (String × Json) → Members
from_members [] = no_members
from_members ((k, v) ∷ ps) = member_then k v (from_members ps)

abbrev pub dict : List (String × Json) → Json
dict ps = object (from_members ps)

abbrev pub nat : ℕ → Json
nat n = number (unsigned n)

abbrev pub f64 : F64 → Json
f64 x = number (float x)

-- `as_array`
abbrev pub as_array : Json → Option (List Json)
as_array (array vs) = some (values vs)
as_array _ = none

-- `as_object`
abbrev pub as_object : Json → Option Members
as_object (object ps) = some ps
as_object _ = none

-- `as_str`
abbrev pub as_str : Json → Option String
as_str (string s) = some s
as_str _ = none

-- `as_u64`
abbrev pub as_u64 : Json → Option ℕ
as_u64 (number (unsigned n)) = some n
as_u64 _ = none

-- `as_i64`: an unsigned value past the range of `i64` is refused
abbrev pub as_i64 : Json → Option ℤ
as_i64 (number (unsigned n)) = if ltb n (2 ^ 63) then some (pos n) else none
as_i64 (number (negative n)) = some (negsuc n)
as_i64 _ = none

-- `map.get(key)`
abbrev pub get_key : Members → String → Option Json
get_key no_members k = none
get_key (member_then j v ps) k = if j == k then some v else get_key ps k

-- `value.get(i)` and `value.get(key)`
abbrev pub get_index : Json → ℕ → Option Json
get_index (array vs) i = get_elem? (values vs) i
get_index _ i = none

abbrev pub get_field : Json → String → Option Json
get_field (object ps) k = get_key ps k
get_field _ k = none

abbrev pub get_str : Members → String → Option String
get_str ps k = option_bind (get_key ps k) as_str

abbrev pub get_i64 : Members → String → Option ℤ
get_i64 ps k = option_bind (get_key ps k) as_i64

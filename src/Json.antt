-- ===== src/Json.antt =====
-- Values of Python's `json` (dict[str, Any] payloads and RCS-2000 envelopes), with the operations
-- that the program applies to a value of unknown type. A float is a decimal: `mantissa` times
-- 10 ^ -`places`; infinities and NaN are left out.
pub mod Print
mod Number
pub use Number.*
use mathlib.Core.List
use mathlib.Core.List.{reverse}
use robo_control.Prelude.{
  ℕ, zero, suc, ◌+◌, ◌^◌, String, Bool, true, false, not, Option, none, some, List, ◌==◌, str_eq,
  if◌then◌else◌,
}
use robo_control.Text.{is_empty}
use Number.{ℤ, pos, negsuc}

pub record Decimal : Type 0 where
  pub mantissa : ℤ
  pub places : ℕ

mutual
  pub data Json : Type 0 where
    null : Json
    boolean : Bool → Json
    int : ℤ → Json
    float : Decimal → Json
    str : String → Json
    arr : Items → Json
    obj : Fields → Json

  pub data Items : Type 0 where
    nil : Items
    cons : Json → Items → Items

  pub data Fields : Type 0 where
    end : Fields
    field : String → Json → Fields → Fields

abbrev pub object : List (String × Json) → Fields
object List.[] = end
object (List.◌∷◌ (k, v) rest) = field k v (object rest)

abbrev pub opt_str : Option String → Json
opt_str none = null
opt_str (some s) = str s

abbrev pub opt_float : Option Decimal → Json
opt_float none = null
opt_float (some d) = float d

-- `d.get(key)`, where `none` is a missing key.
unfoldable pub find : String → Fields → Option Json
find key end = none
find key (field k v rest) = if str_eq k key then some v else find key rest

-- `d.get(key)` as a value: a missing key gives None.
unfoldable pub get_or_null : String → Fields → Json
unfolding find
get_or_null key fs = elim (find key fs) [ none ↦ null | some v ↦ v ]

abbrev pub is_zero : ℤ → Bool
is_zero (pos n) = n == 0
is_zero (negsuc _) = false

-- `bool(v)`
unfoldable pub truthy : Json → Bool
truthy null = false
truthy (boolean b) = b
truthy (int n) = not (is_zero n)
truthy (float d) = not (is_zero d.mantissa)
truthy (str s) = not (is_empty s)
truthy (arr nil) = false
truthy (arr (cons _ _)) = true
truthy (obj end) = false
truthy (obj (field _ _ _)) = true

-- `type(v).__name__`
unfoldable pub type_name : Json → String
type_name null = "NoneType"
type_name (boolean _) = "bool"
type_name (int _) = "int"
type_name (float _) = "float"
type_name (str _) = "str"
type_name (arr _) = "list"
type_name (obj _) = "dict"

-- `v == 1`; Python's `True` equals 1.
unfoldable pub equals_one : Json → Bool
equals_one (boolean b) = b
equals_one (int (pos n)) = n == 1
equals_one (float d) = elim d.mantissa [ pos m ↦ m == 10 ^ d.places | negsuc _ ↦ false ]
equals_one _ = false

-- `v == 0`
unfoldable pub equals_zero : Json → Bool
equals_zero (boolean b) = not b
equals_zero (int n) = is_zero n
equals_zero (float d) = is_zero d.mantissa
equals_zero _ = false

-- `v == text`
unfoldable pub equals_text : String → Json → Bool
equals_text t (str s) = str_eq s t
equals_text t _ = false

-- `v or {}`
abbrev pub or_empty : Json → Json
or_empty v = if truthy v then v else obj end

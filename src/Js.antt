-- ===== src/Js.antt =====
-- The values of the language that the domain package is handed: every command takes its input as
-- `unknown` and tests it at run time. Objects live in a store, since the source compares their
-- identity; a text is a sequence of UTF-16 code units. `Date.parse` of a text that is no ISO-8601
-- date depends on the engine, so the whole function is a parameter; its result counts milliseconds
-- from the earliest time value of the language (8.64e15 ms before 1970), `none` stands for NaN.
pub mod Texts
pub mod Decimal
pub mod Maps
pub mod Json
pub mod Utf8
use token_streaming.Common.{ℕ, ◌+◌, ◌^◌, ◌-◌, Bool, Option, List, [], ◌∷◌, ◌==◌, if◌then◌else◌}
use Texts.{Text, text_eq}
use Decimal.{print}

-- `Number.MAX_SAFE_INTEGER`
abbrev pub max_safe : ℕ
max_safe = 2 ^ 53 - 1

-- A `number`; the code reads the magnitude of natural numbers only. `negative` is an integer below
-- zero, `fraction` is finite, `non_finite` is NaN or an infinity.
pub data Number : Type 0 where
  natural : ℕ → Number
  negative fraction non_finite : Number

-- `exotic` is a bigint, a function or a symbol; `ref` is the identity of an object.
pub data Value : Type 0 where
  undefined null exotic : Value
  bool : Bool → Value
  num : Number → Value
  str : Text → Value
  ref : ℕ → Value

-- `plain` has the prototype `Object.prototype` or `null`, `classed` any other.
pub data Object : Type 0 where
  array : List Value → Object
  plain classed : List (Text × Value) → Object

pub record Engine : Type 0 where
  pub heap : ℕ → Object
  pub date_parse : Text → Option ℕ

unfoldable pub field_of : List (Text × Value) → Text → Value
field_of [] key = undefined
field_of ((k, v) ∷ fields) key = if k == key then v else field_of fields key

unfoldable pub index_entries : ℕ → List Value → List (Text × Value)
index_entries i [] = []
index_entries i (v ∷ vs) = (print i, v) ∷ index_entries (i + 1) vs

-- `Object.entries`
unfoldable pub entries : Object → List (Text × Value)
unfolding index_entries
entries (array vs) = index_entries 0 vs
entries (plain fields) = fields
entries (classed fields) = fields

-- `value[key]` for a key that no prototype has.
unfoldable pub get : Engine → Value → Text → Value
unfolding field_of
get js (ref r) key = elim (js.heap r) [
  | array vs ↦ undefined
  | plain fields ↦ field_of fields key
  | classed fields ↦ field_of fields key
]
get js v key = undefined

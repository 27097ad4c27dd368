-- ===== src/Js/Json.antt =====
-- What `JSON.parse` returns, and the tests of it that the source writes. The properties of an object
-- stand in the order of `Object.keys`.
use token_streaming.Common.{ℕ, Bool, Option, none, some, List, [], ◌∷◌, leb, ◌==◌, if◌then◌else◌}
use token_streaming.Js.{Number, natural, max_safe}
use token_streaming.Js.Texts.{Text, text_eq}

mutual
  pub data Json : Type 0 where
    null : Json
    bool : Bool → Json
    num : Number → Json
    str : Text → Json
    array : Items → Json
    object : Fields → Json

  pub data Items : Type 0 where
    nil : Items
    cons : Json → Items → Items

  pub data Fields : Type 0 where
    end : Fields
    field : Text → Json → Fields → Fields

-- `Object.keys(value)`
unfoldable pub keys : Fields → List Text
keys end = []
keys (field key v fields) = key ∷ keys fields

-- `value[key]`, `none` where it is undefined.
unfoldable pub property : Text → Fields → Option Json
property key end = none
property key (field k v fields) = if k == key then some v else property key fields

-- The text, `none` where `typeof value !== "string"`.
unfoldable pub as_text : Option Json → Option Text
as_text (some (str s)) = some s
as_text _ = none

-- The number, `none` unless `Number.isSafeInteger(value) && value >= 0`.
unfoldable pub as_natural : Option Json → Option ℕ
as_natural (some (num (natural n))) = if leb n max_safe then some n else none
as_natural _ = none

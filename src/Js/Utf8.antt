-- ===== src/Js/Utf8.antt =====
-- `Buffer.byteLength(text, "utf8")`: a surrogate pair takes four bytes, and a surrogate that stands
-- alone is replaced by a unit of three.
use token_streaming.Common.{ℕ, ◌+◌, Bool, ◌&&◌, [], ◌∷◌, leb, ltb, if◌then◌else◌}
use token_streaming.Js.Texts.{Text}

abbrev is_high : ℕ → Bool
is_high c = leb 0xd800 c && ltb c 0xdc00

abbrev is_low : ℕ → Bool
is_low c = leb 0xdc00 c && ltb c 0xe000

abbrev unit_bytes : ℕ → ℕ
unit_bytes c = if ltb c 0x80 then 1 else if ltb c 0x800 then 2 else 3

-- A low surrogate behind a high one adds one byte to its three.
abbrev next_bytes : ℕ → ℕ → ℕ
next_bytes before c = if is_high before && is_low c then 1 else unit_bytes c

unfoldable pub utf8_from : ℕ → Text → ℕ
utf8_from before [] = 0
utf8_from before (c ∷ t) = next_bytes before c + utf8_from c t

unfoldable pub utf8_length : Text → ℕ
unfolding utf8_from
utf8_length t = utf8_from 0 t

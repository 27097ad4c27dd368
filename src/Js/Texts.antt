-- ===== src/Js/Texts.antt =====
-- Texts as sequences of UTF-16 code units, and the text functions and patterns that the source
-- uses: `length`, `includes`, `startsWith`, `endsWith`, `trim`, `toLowerCase`, character classes.
use Prim.Native.Char.{code}
use token_streaming.Common.{
  ℕ, ◌+◌, String, ◌≡◌, ◌↔◌, Bool, true, false, ◌&&◌, ◌||◌, List, [], ◌∷◌, ◌++◌, arith, leb, nat_beq,
  Eq, if◌then◌else◌,
}

abbrev pub Text : Type 0
Text = List ℕ

-- A literal of the source; those are ASCII, so a character is a code unit.
unfoldable pub text : String → Text
text String.[] = []
text (String.◌∷◌ c s) = code c ∷ text s

unfoldable pub text_beq : Text → Text → Bool
text_beq [] [] = true
text_beq [] (d ∷ t) = false
text_beq (c ∷ s) [] = false
text_beq (c ∷ s) (d ∷ t) = nat_beq c d && text_beq s t

pub text_beq_iff : (s t : Text) → (text_beq s t ≡ true) ↔ (s ≡ t)
unfolding text_beq
text_beq_iff [] [] = ground arith
text_beq_iff [] (d ∷ t) = ground arith
text_beq_iff (c ∷ s) [] = ground arith
text_beq_iff (c ∷ s) (d ∷ t) = ground (arith, text_beq_iff s t)

instance abbrev pub text_eq : Eq Text
text_eq = record { beq = text_beq; beq_iff = text_beq_iff }

-- `s.startsWith(t)`
unfoldable pub starts_with : Text → Text → Bool
starts_with s [] = true
starts_with [] (d ∷ t) = false
starts_with (c ∷ s) (d ∷ t) = nat_beq c d && starts_with s t

-- `s.includes(t)`
unfoldable pub includes : Text → Text → Bool
unfolding starts_with
includes [] t = starts_with [] t
includes (c ∷ s) t = starts_with (c ∷ s) t || includes s t

-- `s.endsWith(c)` for one code unit
unfoldable pub ends_with : Text → ℕ → Bool
ends_with [] d = false
ends_with (c ∷ []) d = nat_beq c d
ends_with (c ∷ e ∷ s) d = ends_with (e ∷ s) d

-- `s.slice(0, -1)`
unfoldable pub without_last : Text → Text
without_last [] = []
without_last (c ∷ []) = []
without_last (c ∷ e ∷ s) = c ∷ without_last (e ∷ s)

-- WhiteSpace and LineTerminator of the language.
unfoldable pub is_space : ℕ → Bool
is_space c =
    (leb 9 c && leb c 13)
    || (leb 0x2000 c && leb c 0x200a)
    || nat_beq c 32
    || nat_beq c 0xa0
    || nat_beq c 0x1680
    || nat_beq c 0x2028
    || nat_beq c 0x2029
    || nat_beq c 0x202f
    || nat_beq c 0x205f
    || nat_beq c 0x3000
    || nat_beq c 0xfeff

unfoldable pub trim_start : Text → Text
unfolding is_space
trim_start [] = []
trim_start (c ∷ s) = if is_space c then trim_start s else c ∷ s

unfoldable pub trim_end : Text → Text
unfolding is_space
trim_end [] = []
trim_end (c ∷ s) = elim (trim_end s) [ [] ↦ if is_space c then [] else c ∷ [] | d ∷ t ↦ c ∷ d ∷ t ]

unfoldable pub trim : Text → Text
unfolding trim_start trim_end
trim s = trim_end (trim_start s)

-- `toLowerCase` as far as its result is ASCII: beside A-Z, the Kelvin sign gives k, and I with a dot
-- gives i and a combining dot. Every other mapping gives code units beyond ASCII, which no pattern
-- that is looked for holds.
unfoldable pub lower_unit : ℕ → Text
lower_unit c =
    if leb b'A' c && leb c b'Z'
    then (c + 32) ∷ []
    else if nat_beq c 0x212a
    then b'k' ∷ []
    else if nat_beq c 0x130
    then b'i' ∷ 0x307 ∷ []
    else c ∷ []

unfoldable pub to_lower : Text → Text
unfolding lower_unit
to_lower [] = []
to_lower (c ∷ s) = lower_unit c ++ to_lower s

abbrev pub is_digit : ℕ → Bool
is_digit c = leb b'0' c && leb c b'9'

abbrev pub is_upper : ℕ → Bool
is_upper c = leb b'A' c && leb c b'Z'

abbrev pub is_lower : ℕ → Bool
is_lower c = leb b'a' c && leb c b'z'

abbrev pub is_alnum : ℕ → Bool
is_alnum c = is_upper c || is_lower c || is_digit c

-- ===== src/Js/Decimal.antt =====
-- `String(n)` and `BigInt(s)`, between numbers and decimal texts.
use mathlib.Core.Logic.{dite}
use mathlib.Core.WellFounded.{Acc}
use native.Mathlib.Decide.{dec_lt}
use token_streaming.Common.{
  ℕ, ◌+◌, ◌-◌, ◌*◌, ◌/◌, ◌%◌, ◌<◌, ◌≡◌, refl, true, [], ◌∷◌, arith, all, nat_beq, nat_beq_iff,
  Bool-cases, ap, ◌∙◌, inl, inr, if◌then◌else◌,
}
use token_streaming.Common.Order.{lt_wf}
use token_streaming.Js.Texts.{Text, text, is_digit}

tenth_below : {n : ℕ} → 0 < n → n / 10 < n
tenth_below h = omega arith

put_digits : (n : ℕ) → Acc ◌<◌ n → Text → Text
put_digits n (Acc.intro _ below) rest =
    dite (dec_lt 0 n)
      (λ h. put_digits (n / 10) (below (n / 10) (tenth_below h)) ((b'0' + n % 10) ∷ rest))
      (λ _. rest)

unfoldable pub print : ℕ → Text
unfolding put_digits tenth_below lt_wf dec_lt
print n = if nat_beq n 0 then b'0' ∷ [] else put_digits n (lt_wf.apply n) []

unfoldable pub read_from : ℕ → Text → ℕ
read_from n [] = n
read_from n (c ∷ s) = read_from (n * 10 + (c - b'0')) s

-- The number that a text of digits stands for.
unfoldable pub read : Text → ℕ
unfolding read_from
read s = read_from 0 s

printed : print 1203 ≡ text "1203"
unfolding print text
printed = refl

put_digits-read :
    (n : ℕ) (w : Acc ◌<◌ n) (rest : Text) → read_from 0 (put_digits n w rest) ≡ read_from n rest
unfolding put_digits read_from
put_digits-read n (Acc.intro _ below) rest =
    elim (dec_lt 0 n)
      as (λ d.
        read_from 0 (
          dite d
            (λ h. put_digits (n / 10) (below (n / 10) (tenth_below h)) ((b'0' + n % 10) ∷ rest))
            (λ _. rest))
        ≡ read_from n rest) [
          | yes h ↦
              put_digits-read (n / 10) (below (n / 10) (tenth_below h)) ((b'0' + n % 10) ∷ rest)
              ∙ ap (λ k. read_from k rest) (omega arith)
          | no h ↦ ap (λ k. read_from k rest) (omega arith)
        ]

-- Printing and reading back gives the number.
pub read-print : (n : ℕ) → read (print n) ≡ n
unfolding read print
read-print n = elim (Bool-cases (nat_beq n 0)) [
  | inl zero_case ↦ rw (zero_case, read_from) (omega (arith, (nat_beq_iff n 0).0 zero_case))
  | inr positive ↦ rw positive (put_digits-read n (lt_wf.apply n) [])
]

put_digits-all_digits :
    (n : ℕ) (w : Acc ◌<◌ n) (rest : Text)
    → all is_digit rest ≡ true
    → all is_digit (put_digits n w rest) ≡ true
unfolding put_digits
put_digits-all_digits n (Acc.intro _ below) rest h =
    elim (dec_lt 0 n)
      as (λ d.
        all is_digit (
          dite d
            (λ h. put_digits (n / 10) (below (n / 10) (tenth_below h)) ((b'0' + n % 10) ∷ rest))
            (λ _. rest))
        ≡ true) [
          | yes p ↦
              put_digits-all_digits (n / 10) (below (n / 10) (tenth_below p))
                ((b'0' + n % 10) ∷ rest) (ground arith)
          | no p ↦ h
        ]

-- A printed number consists of digits.
pub print-all_digits : (n : ℕ) → all is_digit (print n) ≡ true
unfolding print
print-all_digits n = elim (Bool-cases (nat_beq n 0)) [
  | inl zero_case ↦ rw zero_case
  | inr positive ↦ rw positive (put_digits-all_digits n (lt_wf.apply n) [] refl)
]

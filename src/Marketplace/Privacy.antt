-- ===== src/Marketplace/Privacy.antt =====
-- packages/marketplace-domain/src/privacy.ts: the privacy modes and the retention of content. The
-- mode is tested as an unknown value; the policy is typed, its numbers are not known to be integers.
pub mod Retention
use token_streaming.Common.{
  ℕ, zero, suc, ◌+◌, ◌*◌, ◌/◌, ◌%◌, ◌^◌, ◌-◌, Bool, true, false, ◌&&◌, ◌||◌, List, [], ◌∷◌, ltb,
  leb, nat_beq, ◌==◌, if◌then◌else◌,
}
use token_streaming.Common.Outcome.{ok, err, ◌>>=◌, ◌>>◌}
use token_streaming.Js.{Number, natural, max_safe, Value, str, bool}
use token_streaming.Js.Texts.{Text, text}
use token_streaming.Marketplace.Errors.{Result, privacy_acknowledgement_required}
use token_streaming.Marketplace.Validation.{assert_allowed_value}
use token_streaming.Marketplace.Settlement.{integer_in}
use token_streaming.Marketplace.Cancellation.{PrivacyMode, standard, strict}

pub record RetentionPolicy : Type 0 where
  pub standard_output_retention_hours : Number
  pub standard_artifact_retention_hours : Number
  pub strict_output_retention_minutes : Number
  pub strict_artifact_retention_minutes : Number

pub record RetentionMilliseconds : Type 0 where
  pub output : ℕ
  pub artifact : ℕ

-- `MARKETPLACE_PRIVACY_MODES`
unfoldable pub privacy_modes : List (Text × PrivacyMode)
unfolding text
privacy_modes = (text "standard", standard) ∷ (text "strict", strict) ∷ []

unfoldable pub parse_privacy_mode : Value → Result PrivacyMode
unfolding privacy_modes assert_allowed_value
parse_privacy_mode value = assert_allowed_value privacy_modes value

unfoldable pub assert_supplier_processing_acknowledged : Value → Result (Unit {0})
assert_supplier_processing_acknowledged (bool true) = ok tt
assert_supplier_processing_acknowledged _ = err privacy_acknowledgement_required

-- How often `n` is halved until it has at most 53 binary digits.
unfoldable pub excess_digits : ℕ → ℕ → ℕ
excess_digits zero n = 0
excess_digits (suc fuel) n =
    let more = suc (excess_digits fuel (n / 2)) in if ltb n (2 ^ 53) then 0 else more

-- A number as a double: to the nearest of 53 digits, ties to even. Products here stay below 2 ^ 75,
-- and 64 halvings reach every number below 2 ^ 117.
unfoldable pub to_double : ℕ → ℕ
to_double n =
    let unit = 2 ^ excess_digits 64 n in
    let quotient = n / unit in
    let rest = 2 * (n % unit) in
    if ltb unit rest || (nat_beq unit rest && nat_beq (quotient % 2) 1)
    then (quotient + 1) * unit
    else quotient * unit

unfoldable pub calculate_retention_milliseconds :
    Value → RetentionPolicy → Result RetentionMilliseconds
unfolding parse_privacy_mode integer_in
calculate_retention_milliseconds mode_input policy = do
  mode ← parse_privacy_mode mode_input
  output_hours ← integer_in policy.standard_output_retention_hours 1 max_safe
  artifact_hours ← integer_in policy.standard_artifact_retention_hours 1 max_safe
  output_minutes ← integer_in policy.strict_output_retention_minutes 1 max_safe
  artifact_minutes ← integer_in policy.strict_artifact_retention_minutes 1 max_safe
  ok (elim mode [
    | strict ↦ record {
      output = to_double (output_minutes * 60_000);
      artifact = to_double (artifact_minutes * 60_000);
    }
    | standard ↦ record {
      output = to_double (to_double (output_hours * 60) * 60_000);
      artifact = to_double (to_double (artifact_hours * 60) * 60_000);
    }
  ])

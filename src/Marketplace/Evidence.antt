-- ===== src/Marketplace/Evidence.antt =====
-- What packages/marketplace-domain/src/execution-evidence.ts and artifact-evidence.ts share: the
-- usage, the digests and the clock window.
pub mod Execution
pub mod Artifact
pub mod Matches
pub mod Executed
pub mod Produced
use token_streaming.Common.{
  ℕ, ◌+◌, ◌*◌, Bool, true, false, not, ◌&&◌, ◌||◌, Option, none, some, List, [], ◌∷◌, all, length,
  ltb, leb, nat_beq, nat_eq, ◌==◌, if◌then◌else◌,
}
use token_streaming.Common.Outcome.{ok, err, throw_if, ◌>>=◌, ◌>>◌}
use token_streaming.Js.{Number, natural, Value, undefined, str, num, Engine, get, max_safe}
use token_streaming.Js.Texts.{Text, text, text_eq, is_digit}
use token_streaming.Marketplace.Errors.{Result, service_evidence_mismatch}
use token_streaming.Marketplace.Validation.{assert_exact_keys, assert_text}

-- `SupplierGatewayUsage`
pub record Usage : Type 0 where
  pub input_tokens : ℕ
  pub output_tokens : ℕ
  pub total_tokens : ℕ

unfoldable pub usage_keys : List Text
usage_keys = text "input_tokens" ∷ text "output_tokens" ∷ text "total_tokens" ∷ []

-- `Number.isSafeInteger(value) && value >= least`
unfoldable pub assert_safe_from : ℕ → Value → Result ℕ
assert_safe_from least (num (natural n)) =
    if leb n max_safe && leb least n then ok n else err service_evidence_mismatch
assert_safe_from least _ = err service_evidence_mismatch

-- `validateUsage`: a negative total differs from the sum. The sum of two safe integers is exact
-- wherever it is compared with a safe integer that could be equal.
unfoldable pub validate_usage : Engine → Value → Result Usage
validate_usage js value = do
  assert_exact_keys js value usage_keys
  input ← assert_safe_from 1 (get js value (text "input_tokens"))
  output ← assert_safe_from 0 (get js value (text "output_tokens"))
  total ← assert_safe_from 0 (get js value (text "total_tokens"))
  throw_if (not (total == input + output)) service_evidence_mismatch
  ok (record { input_tokens = input; output_tokens = output; total_tokens = total })

-- `[a-f0-9]`
unfoldable pub is_hex_unit : ℕ → Bool
is_hex_unit c = (leb b'a' c && leb c b'f') || is_digit c

-- `/^[a-f0-9]{64}$/`
unfoldable pub assert_sha256 : Value → Result Text
assert_sha256 (str s) =
    if all is_hex_unit s && nat_beq (length s) 64 then ok s else err service_evidence_mismatch
assert_sha256 _ = err service_evidence_mismatch

unfoldable pub same_usage : Usage → Usage → Bool
same_usage left right =
    left.input_tokens == right.input_tokens
    && left.output_tokens == right.output_tokens
    && left.total_tokens == right.total_tokens

-- `5 * 60_000`
abbrev pub clock_skew : ℕ
clock_skew = 5 * 60_000

-- `completedAt >= startedAt - 5 * 60_000 && completedAt <= verifiedAt + 5 * 60_000`; the subtraction
-- stands on the other side.
unfoldable pub is_within_clock_window : (completed started verified : ℕ) → Bool
is_within_clock_window completed started verified =
    leb started (completed + clock_skew) && leb completed (verified + clock_skew)

-- `value === literal`
unfoldable pub is_text : Value → Text → Bool
is_text (str s) literal = s == literal
is_text _ literal = false

-- A field that may be missing: `undefined` is not tested.
unfoldable pub read_optional_text : Value → ℕ → Result (Option Text)
read_optional_text undefined maximum = ok none
read_optional_text value maximum = do s ← assert_text value maximum; ok (some s)

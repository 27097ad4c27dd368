-- ===== src/Marketplace/Settlement.antt =====
-- packages/marketplace-domain/src/settlement.ts: charges, fees and credits in micros, and the
-- estimates that a reservation holds. Amounts are decimal texts, as in the source.
pub mod Amounts
pub mod Reserved
use token_streaming.Common.{
  ℕ, ◌+◌, ◌-◌, ◌*◌, ◌/◌, Bool, true, false, ◌&&◌, List, ltb, leb, if◌then◌else◌,
}
use Prim.Native.Nat.{max}
use token_streaming.Common.Outcome.{Outcome, ok, err, throw_if, ◌>>=◌, ◌>>◌}
use token_streaming.Js.{Number, natural, negative, fraction, non_finite, max_safe}
use token_streaming.Js.Texts.{Text}
use token_streaming.Js.Decimal.{print, read}
use token_streaming.Marketplace.Errors.{Result, invalid_argument}
use token_streaming.Marketplace.Validation.{is_positive_decimal}

pub record SettlementQuote : Type 0 where
  pub total_tokens : Number
  pub price_micros_per_million_tokens : Text
  pub platform_fee_bps : Number

pub record SettlementAmounts : Type 0 where
  pub buyer_charge_micros : Text
  pub supplier_credit_micros : Text
  pub platform_fee_micros : Text

-- A safe integer from `least` to `most`, or an error.
unfoldable pub integer_in : Number → ℕ → ℕ → Result ℕ
integer_in (natural n) least most =
    if leb n max_safe && leb least n && leb n most then ok n else err invalid_argument
integer_in _ least most = err invalid_argument

unfoldable pub divide_rounding_up : ℕ → ℕ → ℕ
divide_rounding_up numerator denominator = (numerator + denominator - 1) / denominator

unfoldable pub calculate_settlement : SettlementQuote → Result SettlementAmounts
unfolding integer_in divide_rounding_up
calculate_settlement quote = do
  tokens ← integer_in quote.total_tokens 1 max_safe
  throw_if (if is_positive_decimal quote.price_micros_per_million_tokens then false else true)
      invalid_argument
  fee_bps ← integer_in quote.platform_fee_bps 0 5_000
  let unit_price = read quote.price_micros_per_million_tokens
  let buyer_charge = divide_rounding_up (tokens * unit_price) 1_000_000
  let platform_fee = (buyer_charge * fee_bps) / 10_000
  let supplier_credit = buyer_charge - platform_fee
  ok (record {
    buyer_charge_micros = print buyer_charge;
    supplier_credit_micros = print supplier_credit;
    platform_fee_micros = print platform_fee;
  })

-- The sum of two safe integers is computed exactly, or it is no safe integer after rounding either
-- and `calculateSettlement` refuses it.
unfoldable pub estimate_maximum_charge_micros : Number → Number → Text → Result Text
unfolding calculate_settlement
estimate_maximum_charge_micros estimated_input_tokens max_output_tokens price = do
  estimated ← integer_in estimated_input_tokens 0 max_safe
  output ← integer_in max_output_tokens 1 max_safe
  amounts ← calculate_settlement (record {
    total_tokens = natural (max 1 (estimated + output));
    price_micros_per_million_tokens = price;
    platform_fee_bps = natural 0;
  })
  ok amounts.buyer_charge_micros

unfoldable pub estimate_artifact_maximum_charge_micros : Number → Text → Result Text
unfolding calculate_settlement
estimate_artifact_maximum_charge_micros max_total_tokens price = do
  total ← integer_in max_total_tokens 1 100_000_000
  amounts ← calculate_settlement (record {
    total_tokens = natural total;
    price_micros_per_million_tokens = price;
    platform_fee_bps = natural 0;
  })
  ok amounts.buyer_charge_micros

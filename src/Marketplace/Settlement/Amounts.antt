-- ===== src/Marketplace/Settlement/Amounts.antt =====
-- What a settlement amounts to (packages/marketplace-domain/src/settlement.ts).
use token_streaming.Common.{
  sym, subst, ℕ, ◌+◌, ◌-◌, ◌*◌, ◌/◌, ◌≤◌, ◌<◌, ◌≡◌, refl, ◌↔◌, true, false, arith, if◌then◌else◌,
}
use token_streaming.Common.Outcome.{ok, err, throw_if, >>=-eq-ok, throw_if-eq-ok}
use token_streaming.Js.{Number, natural, negative, fraction, non_finite, max_safe}
use token_streaming.Js.Decimal.{print, read, read-print}
use token_streaming.Marketplace.Errors.{ErrorCode, invalid_argument}
use token_streaming.Marketplace.Validation.{is_positive_decimal}
use token_streaming.Marketplace.Settlement.{
  SettlementQuote, SettlementAmounts, integer_in, divide_rounding_up, calculate_settlement,
}

pub integer_in_iff :
    (number : Number) (least most n : ℕ)
    → (integer_in number least most ≡ ok n)
      ↔ ((number ≡ natural n) × (n ≤ max_safe) × (least ≤ n) × (n ≤ most))
unfolding integer_in
integer_in_iff (natural m) least most n = ground arith
integer_in_iff negative least most n = ground arith
integer_in_iff fraction least most n = ground arith
integer_in_iff non_finite least most n = ground arith

-- The amounts of a quote that is in range.
pub record IsSettled (tokens price fee_bps : ℕ) (amounts : SettlementAmounts) : Type 0 where
  pub conserved :
      read amounts.supplier_credit_micros + read amounts.platform_fee_micros
      ≡ read amounts.buyer_charge_micros
  pub covered : tokens * price ≤ 1_000_000 * read amounts.buyer_charge_micros
  pub tight : 1_000_000 * read amounts.buyer_charge_micros < tokens * price + 1_000_000
  pub fee : 10_000 * read amounts.platform_fee_micros ≤ read amounts.buyer_charge_micros * fee_bps
  pub fee_tight :
      read amounts.buyer_charge_micros * fee_bps
      < 10_000 * read amounts.platform_fee_micros + 10_000
  pub at_most_half : 2 * read amounts.platform_fee_micros ≤ read amounts.buyer_charge_micros

abbrev pub amounts_of : ℕ → ℕ → SettlementAmounts
amounts_of charge bps = record {
  buyer_charge_micros = print charge;
  supplier_credit_micros = print (charge - (charge * bps) / 10_000);
  platform_fee_micros = print ((charge * bps) / 10_000);
}

fee_le_half : (charge bps : ℕ) → bps ≤ 5_000 → charge * bps ≤ charge * 5_000
fee_le_half charge bps h = grind arith

amounts_of-IsSettled :
    (tokens price bps : ℕ)
    → bps ≤ 5_000
    → IsSettled tokens price bps (amounts_of (divide_rounding_up (tokens * price) 1_000_000) bps)
unfolding divide_rounding_up
amounts_of-IsSettled tokens price bps h =
    let charge = (tokens * price + 1_000_000 - 1) / 1_000_000 in
    let half = fee_le_half charge bps h in
    let c = read-print charge in
    let s = read-print (charge - (charge * bps) / 10_000) in
    let f = read-print ((charge * bps) / 10_000) in
    record {
      conserved = rw (c, s, f) (omega arith);
      covered = rw c (omega arith);
      tight = rw c (omega arith);
      fee = rw (c, f) (omega arith);
      fee_tight = rw (c, f) (omega arith);
      at_most_half = rw (c, f) (omega arith);
    }

-- A quote that the code accepts, with its numbers.
pub record IsQuote (quote : SettlementQuote) (tokens bps : ℕ) : Type 0 where
  pub tokens_given : quote.total_tokens ≡ natural tokens
  pub tokens_safe : tokens ≤ max_safe
  pub tokens_positive : 1 ≤ tokens
  pub price_decimal : is_positive_decimal quote.price_micros_per_million_tokens ≡ true
  pub bps_given : quote.platform_fee_bps ≡ natural bps
  pub bps_capped : bps ≤ 5_000

abbrev result_of : SettlementQuote → ℕ → ℕ → SettlementAmounts
result_of quote tokens bps =
    amounts_of (divide_rounding_up (tokens * read quote.price_micros_per_million_tokens) 1_000_000)
      bps

calculate-of_IsQuote :
    (quote : SettlementQuote) (tokens bps : ℕ)
    → IsQuote quote tokens bps
    → calculate_settlement quote ≡ ok (result_of quote tokens bps)
unfolding calculate_settlement
calculate-of_IsQuote quote tokens bps q =
    let t =
      (integer_in_iff quote.total_tokens 1 max_safe tokens).1
        (q.tokens_given, q.tokens_safe, q.tokens_positive, q.tokens_safe) in
    let b =
      (integer_in_iff quote.platform_fee_bps 0 5_000 bps).1
        (q.bps_given, omega (arith, q.bps_capped), omega arith, q.bps_capped) in
    rw (t, q.price_decimal, b) refl

pub IsQuote-of_calculate :
    (quote : SettlementQuote) (amounts : SettlementAmounts)
    → calculate_settlement quote ≡ ok amounts
    → (tokens : ℕ) × (bps : ℕ) × IsQuote quote tokens bps × (amounts ≡ result_of quote tokens bps)
unfolding calculate_settlement
IsQuote-of_calculate quote amounts h =
    let price = is_positive_decimal quote.price_micros_per_million_tokens in
    let (tokens, t, h1) = >>=-eq-ok (integer_in quote.total_tokens 1 max_safe) _ h in
    let (_, p, h2) = >>=-eq-ok (throw_if (if price then false else true) invalid_argument) _ h1 in
    let (bps, b, h3) = >>=-eq-ok (integer_in quote.platform_fee_bps 0 5_000) _ h2 in
    let (given, safe, positive, _) = (integer_in_iff quote.total_tokens 1 max_safe tokens).0 t in
    let (bps_given, _, _, capped) = (integer_in_iff quote.platform_fee_bps 0 5_000 bps).0 b in
    (
      tokens,
      bps,
      record {
        tokens_given = given;
        tokens_safe = safe;
        tokens_positive = positive;
        price_decimal = ground (arith, throw_if-eq-ok _ _ p);
        bps_given = bps_given;
        bps_capped = capped;
      },
      cc,
    )

-- A settlement is returned only for a quote in range, and nothing is lost between buyer, supplier
-- and platform: the charge is the price rounded up to a whole micro, the fee is the share of the
-- charge rounded down, and at most half of it.
pub calculate_settlement-IsSettled :
    (quote : SettlementQuote) (amounts : SettlementAmounts)
    → calculate_settlement quote ≡ ok amounts
    → (tokens : ℕ) × (bps : ℕ) × IsQuote quote tokens bps
      × IsSettled tokens (read quote.price_micros_per_million_tokens) bps amounts
calculate_settlement-IsSettled quote amounts h =
    let (tokens, bps, q, same) = IsQuote-of_calculate quote amounts h in
    let settled =
      amounts_of-IsSettled tokens (read quote.price_micros_per_million_tokens) bps q.bps_capped in
    (
      tokens,
      bps,
      q,
      subst (IsSettled tokens (read quote.price_micros_per_million_tokens) bps) (sym same) settled,
    )

-- Every quote in range is settled.
pub calculate_settlement_total :
    (quote : SettlementQuote) (tokens bps : ℕ)
    → IsQuote quote tokens bps
    → (amounts : SettlementAmounts) × (calculate_settlement quote ≡ ok amounts)
calculate_settlement_total quote tokens bps q =
    (result_of quote tokens bps, calculate-of_IsQuote quote tokens bps q)

-- Every refusal of a quote is INVALID_ARGUMENT.
pub calculate_settlement-err :
    (quote : SettlementQuote) (e : ErrorCode)
    → calculate_settlement quote ≡ err e
    → e ≡ invalid_argument
unfolding calculate_settlement integer_in
calculate_settlement-err quote e h = ground arith

-- ===== src/Marketplace/Settlement/Reserved.antt =====
-- What a reservation covers (packages/marketplace-domain/src/settlement.ts).
use token_streaming.Common.{ap, ◌∙◌, ℕ, ◌+◌, ◌*◌, ◌≤◌, ◌≡◌, arith}
use Prim.Native.Nat.{max}
use token_streaming.Common.Outcome.{ok, >>=-eq-ok}
use token_streaming.Js.{Number, natural, max_safe}
use token_streaming.Js.Texts.{Text}
use token_streaming.Js.Decimal.{read, read-print}
use token_streaming.Marketplace.Errors.{Result}
use token_streaming.Marketplace.Settlement.{
  SettlementQuote, SettlementAmounts, integer_in, divide_rounding_up, calculate_settlement,
  estimate_maximum_charge_micros,
}
use token_streaming.Marketplace.Settlement.{estimate_artifact_maximum_charge_micros}
use token_streaming.Marketplace.Settlement.Amounts.{
  integer_in_iff, amounts_of, IsQuote-of_calculate,
}

mul_mono : (a b c : ℕ) → a ≤ b → a * c ≤ b * c
mul_mono a b c h = grind arith

charge_mono :
    (a b price : ℕ)
    → a ≤ b
    → divide_rounding_up (a * price) 1_000_000 ≤ divide_rounding_up (b * price) 1_000_000
unfolding divide_rounding_up
charge_mono a b price h = omega (arith, mul_mono a b price h)

le_of_naturals :
    {given : Number} {t tokens estimated output e o t' : ℕ}
    → given ≡ natural t
    → given ≡ natural tokens
    → natural estimated ≡ natural e
    → natural output ≡ natural o
    → natural (max 1 (e + o)) ≡ natural t'
    → tokens ≤ estimated + output
    → t ≤ t'
le_of_naturals a b c d f h = ground arith

charge_le :
    (amounts amounts' : SettlementAmounts) (t t' bps bps' price : ℕ) (reserved : Text)
    → t ≤ t'
    → amounts ≡ amounts_of (divide_rounding_up (t * price) 1_000_000) bps
    → amounts' ≡ amounts_of (divide_rounding_up (t' * price) 1_000_000) bps'
    → ◌≡◌ {A = Result Text} (ok amounts'.buyer_charge_micros) (ok reserved)
    → read amounts.buyer_charge_micros ≤ read reserved
charge_le amounts amounts' t t' bps bps' price reserved le same same' last =
    let charge = divide_rounding_up (t * price) 1_000_000 in
    let charge' = divide_rounding_up (t' * price) 1_000_000 in
    let a : read amounts.buyer_charge_micros ≡ charge =
      ap (λ (x : SettlementAmounts). read x.buyer_charge_micros) same ∙ read-print charge in
    let b : read reserved ≡ charge' = cc (
      ap (λ (x : SettlementAmounts). read x.buyer_charge_micros) same',
      read-print charge',
      last,
    ) in
    omega (arith, charge_mono t t' price le)

-- The estimate that is reserved covers the charge: a settlement at the same price, whatever its fee,
-- for no more tokens than were estimated charges at most the estimate.
pub estimate_covers_charge :
    (estimated output : ℕ) (quote : SettlementQuote) (tokens : ℕ) (amounts : SettlementAmounts)
    (reserved : Text)
    → estimate_maximum_charge_micros
        (natural estimated)
        (natural output)
        quote.price_micros_per_million_tokens
      ≡ ok reserved
    → quote.total_tokens ≡ natural tokens
    → tokens ≤ estimated + output
    → calculate_settlement quote ≡ ok amounts
    → read amounts.buyer_charge_micros ≤ read reserved
unfolding estimate_maximum_charge_micros
estimate_covers_charge estimated output quote tokens amounts reserved h given bound settled =
    let (e, he, h1) = >>=-eq-ok (integer_in (natural estimated) 0 max_safe) _ h in
    let (o, ho, h2) = >>=-eq-ok (integer_in (natural output) 1 max_safe) _ h1 in
    let same_e = ((integer_in_iff (natural estimated) 0 max_safe e).0 he).0 in
    let same_o = ((integer_in_iff (natural output) 1 max_safe o).0 ho).0 in
    let inner : SettlementQuote = record {
      total_tokens = natural (max 1 (e + o));
      price_micros_per_million_tokens = quote.price_micros_per_million_tokens;
      platform_fee_bps = natural 0;
    } in
    let (amounts', run, last) = >>=-eq-ok (calculate_settlement inner) _ h2 in
    let (t', bps', q', result') = IsQuote-of_calculate inner amounts' run in
    let (t, bps, q, result) = IsQuote-of_calculate quote amounts settled in
    charge_le amounts amounts' t t' bps bps' (read quote.price_micros_per_million_tokens) reserved
      (le_of_naturals (q.tokens_given) given same_e same_o (q'.tokens_given) bound) result result'
      last

artifact_le :
    {given : Number} {t tokens maximum e t' : ℕ}
    → given ≡ natural t
    → given ≡ natural tokens
    → natural maximum ≡ natural e
    → natural e ≡ natural t'
    → tokens ≤ maximum
    → t ≤ t'
artifact_le a b c d h = ground arith

-- The estimate of an artifact task covers its charge: a settlement at the same price, whatever its fee,
-- for no more tokens than the task's maximum charges at most the estimate.
pub estimate_artifact_covers_charge :
    (maximum : ℕ) (quote : SettlementQuote) (tokens : ℕ) (amounts : SettlementAmounts)
    (reserved : Text)
    → estimate_artifact_maximum_charge_micros
        (natural maximum)
        quote.price_micros_per_million_tokens
      ≡ ok reserved
    → quote.total_tokens ≡ natural tokens
    → tokens ≤ maximum
    → calculate_settlement quote ≡ ok amounts
    → read amounts.buyer_charge_micros ≤ read reserved
unfolding estimate_artifact_maximum_charge_micros
estimate_artifact_covers_charge maximum quote tokens amounts reserved h given bound settled =
    let (e, he, h1) = >>=-eq-ok (integer_in (natural maximum) 1 100_000_000) _ h in
    let same_e = ((integer_in_iff (natural maximum) 1 100_000_000 e).0 he).0 in
    let inner : SettlementQuote = record {
      total_tokens = natural e;
      price_micros_per_million_tokens = quote.price_micros_per_million_tokens;
      platform_fee_bps = natural 0;
    } in
    let (amounts', run, last) = >>=-eq-ok (calculate_settlement inner) _ h1 in
    let (t', bps', q', result') = IsQuote-of_calculate inner amounts' run in
    let (t, bps, q, result) = IsQuote-of_calculate quote amounts settled in
    charge_le amounts amounts' t t' bps bps' (read quote.price_micros_per_million_tokens) reserved
      (artifact_le (q.tokens_given) given same_e (q'.tokens_given) bound) result result' last

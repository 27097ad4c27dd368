-- ===== src/Marketplace/Tests/Amounts.antt =====
-- Settlements, cancellations, retentions and inputs: runs, and the theorems at inputs
-- (packages/marketplace-domain/src/settlement.ts, artifact-cancellation.ts, privacy.ts, validation.ts).
use token_streaming.Common.{ℕ, ◌≤◌, ◌≡◌, ◌↔◌, ◌⊎◌, refl, true, false, Memᴰ, arith}
use token_streaming.Common.Outcome.{ok, err}
use token_streaming.Js.{natural, str, ref}
use token_streaming.Js.Texts.{text}
use token_streaming.Js.Decimal.{read}
use token_streaming.Marketplace.Errors.{invalid_artifact_task_state}
use token_streaming.Marketplace.SafeInput.Reached.{Reaches, IsClean, assert_safe_input-IsClean}
use token_streaming.Marketplace.Settlement.{
  SettlementQuote, SettlementAmounts, calculate_settlement,
}
use token_streaming.Marketplace.Settlement.Amounts.{
  IsQuote, IsSettled, calculate_settlement-IsSettled, calculate_settlement_total,
}
use token_streaming.Marketplace.Settlement.Reserved.{
  estimate_covers_charge, estimate_artifact_covers_charge,
}
use token_streaming.Marketplace.Cancellation.{
  standard, strict, PersistedStatus, TaskStatus, CancellationDecision, purge_scheduled, is_leased,
  decide_artifact_task_cancellation, project_artifact_task_status,
}
use token_streaming.Marketplace.Cancellation.Phases.{
  decide_artifact_task_cancellation-project, decide_artifact_task_cancellation-err,
}
use token_streaming.Marketplace.Privacy.{RetentionPolicy, calculate_retention_milliseconds}
use token_streaming.Marketplace.Privacy.Retention.{IsPolicy, kept_for, calculate_retention_exact}
use token_streaming.Marketplace.Code.{code}
use token_streaming.Marketplace.World.{engine}
use token_streaming.Marketplace.Cast.{world}

-- 1 234 567 tokens at 2 500 000 micros a million, 12.5 % for the platform.
unfoldable quote : SettlementQuote
unfolding text
quote = record {
  total_tokens = natural 1_234_567;
  price_micros_per_million_tokens = text "2500000";
  platform_fee_bps = natural 1_250;
}

unfoldable settled : SettlementAmounts
unfolding text
settled = record {
  buyer_charge_micros = text "3086418";
  supplier_credit_micros = text "2700616";
  platform_fee_micros = text "385802";
}

quote_settles : calculate_settlement quote ≡ ok settled
unfolding code quote settled
quote_settles = refl

quote-IsQuote : IsQuote quote 1_234_567 1_250
unfolding code quote
quote-IsQuote = record {
  tokens_given = refl;
  tokens_safe = omega arith;
  tokens_positive = omega arith;
  price_decimal = refl;
  bps_given = refl;
  bps_capped = omega arith;
}

calculate_settlement-IsSettled_example :
    (tokens : ℕ) × (bps : ℕ) × IsQuote quote tokens bps
    × IsSettled tokens (read quote.price_micros_per_million_tokens) bps settled
calculate_settlement-IsSettled_example = calculate_settlement-IsSettled quote settled quote_settles

calculate_settlement_total_example :
    (amounts : SettlementAmounts) × (calculate_settlement quote ≡ ok amounts)
calculate_settlement_total_example = calculate_settlement_total quote 1_234_567 1_250 quote-IsQuote

estimate_covers_charge_example : read settled.buyer_charge_micros ≤ read (text "3250000")
unfolding code quote
estimate_covers_charge_example =
    estimate_covers_charge 1_000_000 300_000 quote 1_234_567 settled (text "3250000") refl refl
      (omega arith) quote_settles

estimate_artifact_covers_charge_example : read settled.buyer_charge_micros ≤ read (text "5000000")
unfolding code quote
estimate_artifact_covers_charge_example =
    estimate_artifact_covers_charge 2_000_000 quote 1_234_567 settled (text "5000000") refl refl
      (omega arith) quote_settles

abbrev strict_stop : CancellationDecision
strict_stop = record {
  public_status = TaskStatus.cancelling;
  persisted_status = PersistedStatus.running;
  release_reservation = false;
  artifact_retention = purge_scheduled;
}

decide_artifact_task_cancellation-project_example :
    (project_artifact_task_status PersistedStatus.running true ≡ TaskStatus.cancelling)
    × ((false ≡ true) ↔ (PersistedStatus.running ≡ PersistedStatus.cancelled))
    × ((false ≡ false) ↔ (
        (PersistedStatus.running ≡ PersistedStatus.running)
        × (is_leased PersistedStatus.running ≡ true)))
    × (decide_artifact_task_cancellation PersistedStatus.running strict ≡ ok strict_stop)
unfolding code
decide_artifact_task_cancellation-project_example =
    decide_artifact_task_cancellation-project PersistedStatus.running strict strict_stop refl

decide_artifact_task_cancellation-err_example :
    (decide_artifact_task_cancellation PersistedStatus.failed standard
      ≡ err invalid_artifact_task_state)
    ↔ ((invalid_artifact_task_state ≡ invalid_artifact_task_state)
        × (((PersistedStatus.failed ≡ PersistedStatus.completed)
              × (project_artifact_task_status PersistedStatus.failed true ≡ TaskStatus.completed))
            ⊎ ((PersistedStatus.failed ≡ PersistedStatus.failed)
                × (project_artifact_task_status PersistedStatus.failed true ≡ TaskStatus.failed))))
decide_artifact_task_cancellation-err_example =
    decide_artifact_task_cancellation-err PersistedStatus.failed standard true
      invalid_artifact_task_state

abbrev policy : RetentionPolicy
policy = record {
  standard_output_retention_hours = natural 24;
  standard_artifact_retention_hours = natural 72;
  strict_output_retention_minutes = natural 15;
  strict_artifact_retention_minutes = natural 30;
}

policy-IsPolicy : IsPolicy policy 24 72 15 30
policy-IsPolicy = record {
  output_hours_given = refl;
  artifact_hours_given = refl;
  output_minutes_given = refl;
  artifact_minutes_given = refl;
  positive = (omega arith, omega arith, omega arith, omega arith);
}

calculate_retention_exact_example :
    calculate_retention_milliseconds (str (text "standard")) policy
    ≡ ok (record {
      output = (kept_for standard 24 72 15 30).0;
      artifact = (kept_for standard 24 72 15 30).1;
    })
unfolding code
calculate_retention_exact_example =
    calculate_retention_exact (str (text "standard")) policy standard 24 72 15 30 refl
      policy-IsPolicy (omega arith, omega arith) (omega arith, omega arith)

assert_safe_input-IsClean_example : IsClean engine 1 (ref 5)
unfolding code world
assert_safe_input-IsClean_example = assert_safe_input-IsClean engine (ref 4) 1 (ref 5) refl (
    Reaches.into (Memᴰ.tail (Memᴰ.tail (Memᴰ.tail (Memᴰ.tail (Memᴰ.tail (Memᴰ.head refl))))))
      Reaches.here)

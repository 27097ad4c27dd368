-- ===== src/Marketplace/Privacy/Retention.antt =====
-- What a retention policy gives (packages/marketplace-domain/src/privacy.ts).
use token_streaming.Common.{
  ap, ◌∙◌, lt→ltb, nat_beq, zero, suc, ◌/◌, ◌%◌, ◌||◌, ◌&&◌, ℕ, ◌+◌, ◌*◌, ◌^◌, ◌<◌, ◌≤◌, ◌≡◌, refl,
  arith, ltb, if◌then◌else◌,
}
use token_streaming.Common.Outcome.{ok, >>=-eq-ok}
use token_streaming.Js.{Number, natural, max_safe, Value}
use token_streaming.Marketplace.Errors.{Result}
use token_streaming.Marketplace.Settlement.{integer_in}
use token_streaming.Marketplace.Settlement.Amounts.{integer_in_iff}
use token_streaming.Marketplace.Cancellation.{PrivacyMode, standard, strict}
use token_streaming.Marketplace.Privacy.{
  RetentionPolicy, RetentionMilliseconds, parse_privacy_mode, excess_digits, to_double,
  calculate_retention_milliseconds,
}

excess_digits-eq-zero : (fuel n : ℕ) → n < 2 ^ 53 → excess_digits fuel n ≡ 0
unfolding excess_digits
excess_digits-eq-zero zero n h = refl
excess_digits-eq-zero (suc fuel) n h = rw (lt→ltb n (2 ^ 53) h)

units :
    (n unit : ℕ)
    → unit ≡ 1
    → (if ltb unit (2 * (n % unit)) || (nat_beq unit (2 * (n % unit)) && nat_beq ((n / unit) % 2) 1)
        then (n / unit + 1) * unit
        else (n / unit) * unit)
      ≡ n
units n unit h = rw h (ground arith)

to_double_exact : (n : ℕ) → n < 2 ^ 53 → to_double n ≡ n
unfolding to_double
to_double_exact n h = units n (2 ^ excess_digits 64 n) (rw (excess_digits-eq-zero 64 n h) refl)

-- The numbers of a policy.
pub record IsPolicy (policy : RetentionPolicy)
    (output_hours artifact_hours output_minutes artifact_minutes : ℕ) : Type 0 where
  pub output_hours_given : policy.standard_output_retention_hours ≡ natural output_hours
  pub artifact_hours_given : policy.standard_artifact_retention_hours ≡ natural artifact_hours
  pub output_minutes_given : policy.strict_output_retention_minutes ≡ natural output_minutes
  pub artifact_minutes_given : policy.strict_artifact_retention_minutes ≡ natural artifact_minutes
  pub positive :
      (1 ≤ output_hours) × (1 ≤ artifact_hours) × (1 ≤ output_minutes) × (1 ≤ artifact_minutes)

-- How long the mode keeps content, in exact milliseconds.
abbrev pub kept_for : PrivacyMode → ℕ → ℕ → ℕ → ℕ → ℕ × ℕ
kept_for standard output_hours artifact_hours output_minutes artifact_minutes =
    (output_hours * 3_600_000, artifact_hours * 3_600_000)
kept_for strict output_hours artifact_hours output_minutes artifact_minutes =
    (output_minutes * 60_000, artifact_minutes * 60_000)

-- A retention is calculated only for a known mode and a policy of four positive integers: a bad
-- number of the other mode refuses it as well.
pub calculate_retention-IsPolicy :
    (mode_input : Value) (policy : RetentionPolicy) (kept : RetentionMilliseconds)
    → calculate_retention_milliseconds mode_input policy ≡ ok kept
    → (mode : PrivacyMode) × (parse_privacy_mode mode_input ≡ ok mode)
      × ((oh : ℕ) × (ah : ℕ) × (om : ℕ) × (am : ℕ) × IsPolicy policy oh ah om am)
unfolding calculate_retention_milliseconds
calculate_retention-IsPolicy mode_input policy kept h =
    let (mode, m, h1) = >>=-eq-ok (parse_privacy_mode mode_input) _ h in
    let (oh, a, h2) =
      >>=-eq-ok (integer_in policy.standard_output_retention_hours 1 max_safe) _ h1 in
    let (ah, b, h3) =
      >>=-eq-ok (integer_in policy.standard_artifact_retention_hours 1 max_safe) _ h2 in
    let (om, c, h4) =
      >>=-eq-ok (integer_in policy.strict_output_retention_minutes 1 max_safe) _ h3 in
    let (am, d, _) =
      >>=-eq-ok (integer_in policy.strict_artifact_retention_minutes 1 max_safe) _ h4 in
    let (a', _, a1, _) =
      (integer_in_iff policy.standard_output_retention_hours 1 max_safe oh).0 a in
    let (b', _, b1, _) =
      (integer_in_iff policy.standard_artifact_retention_hours 1 max_safe ah).0 b in
    let (c', _, c1, _) =
      (integer_in_iff policy.strict_output_retention_minutes 1 max_safe om).0 c in
    let (d', _, d1, _) =
      (integer_in_iff policy.strict_artifact_retention_minutes 1 max_safe am).0 d in
    let valid : IsPolicy policy oh ah om am = record {
      output_hours_given = a';
      artifact_hours_given = b';
      output_minutes_given = c';
      artifact_minutes_given = d';
      positive = (a1, b1, c1, d1);
    } in
    (mode, m, (oh, ah, om, am, valid))

within :
    (n : ℕ) {number : Number}
    → number ≡ natural n
    → 1 ≤ n
    → n < 2 ^ 53
    → integer_in number 1 max_safe ≡ ok n
within n {number} given positive small =
    (integer_in_iff number 1 max_safe n).1 (given, omega arith, positive, omega arith)

hour_exact :
    (n : ℕ) → n * 3_600_000 < 2 ^ 53 → to_double (to_double (n * 60) * 60_000) ≡ n * 3_600_000
hour_exact n h =
    let minutes = to_double_exact (n * 60) (omega arith) in
    let scale : n * 60 * 60_000 ≡ n * 3_600_000 = omega arith in
    ap (λ k. to_double (k * 60_000)) minutes
    ∙ to_double_exact (n * 60 * 60_000) (omega arith)
    ∙ scale

hours_exact :
    (oh ah : ℕ)
    → oh * 3_600_000 < 2 ^ 53
    → ah * 3_600_000 < 2 ^ 53
    → ◌≡◌ {A = Result RetentionMilliseconds}
        (ok (record {
          output = to_double (to_double (oh * 60) * 60_000);
          artifact = to_double (to_double (ah * 60) * 60_000);
        }))
        (ok (record { output = oh * 3_600_000; artifact = ah * 3_600_000 }))
hours_exact oh ah h k = rw (hour_exact oh h, hour_exact ah k) refl

-- While the milliseconds stay below 2 ^ 53, a known mode and a policy of positive integers give the
-- retention of that mode exactly, minutes for strict and hours for standard.
pub calculate_retention_exact :
    (mode_input : Value) (policy : RetentionPolicy) (mode : PrivacyMode) (oh ah om am : ℕ)
    → parse_privacy_mode mode_input ≡ ok mode
    → IsPolicy policy oh ah om am
    → (oh * 3_600_000 < 2 ^ 53) × (ah * 3_600_000 < 2 ^ 53)
    → (om * 60_000 < 2 ^ 53) × (am * 60_000 < 2 ^ 53)
    → calculate_retention_milliseconds mode_input policy
      ≡ ok (record {
        output = (kept_for mode oh ah om am).0;
        artifact = (kept_for mode oh ah om am).1;
      })
unfolding calculate_retention_milliseconds
calculate_retention_exact mode_input policy standard oh ah om am m valid hours minutes =
    let (p1, p2, p3, p4) = valid.positive in
    rw
      (
        m,
        within oh valid.output_hours_given p1 (omega arith),
        within ah valid.artifact_hours_given p2 (omega arith),
        within om valid.output_minutes_given p3 (omega arith),
        within am valid.artifact_minutes_given p4 (omega arith),
      )
      (hours_exact oh ah hours.0 hours.1)
calculate_retention_exact mode_input policy strict oh ah om am m valid hours minutes =
    let (p1, p2, p3, p4) = valid.positive in
    rw
      (
        m,
        within oh valid.output_hours_given p1 (omega arith),
        within ah valid.artifact_hours_given p2 (omega arith),
        within om valid.output_minutes_given p3 (omega arith),
        within am valid.artifact_minutes_given p4 (omega arith),
      )
      (rw (to_double_exact (om * 60_000) minutes.0, to_double_exact (am * 60_000) minutes.1) refl)

-- ===== src/Marketplace/Patterns/Covers.antt =====
-- What a pattern and a ceiling allow, without the code's tests.
use token_streaming.Common.{
  ◌≤◌, ◌≡◌, refl, ◌↔◌, true, inl, inr, [], ◌∷◌, ◌++◌, nat_beq, nat_beq_iff, ◌==◌, arith, ap, ◌∙◌,
  Bool-cases,
}
use mathlib.Core.Path.{ap₂}
use token_streaming.Js.Texts.{
  Text, text, text_eq, text_beq_iff, starts_with, ends_with, without_last,
}
use token_streaming.Marketplace.Protocol.{CapacityLimits}
use token_streaming.Marketplace.Patterns.{matches_pattern, is_within_limits}

-- `requested` asks for no more than `ceiling` in each of the four limits.
pub record IsWithin (requested ceiling : CapacityLimits) : Type 0 where
  pub requests : requested.requests_per_minute ≤ ceiling.requests_per_minute
  pub tokens : requested.tokens_per_minute ≤ ceiling.tokens_per_minute
  pub parallel : requested.concurrency ≤ ceiling.concurrency
  pub output : requested.max_output_tokens ≤ ceiling.max_output_tokens

pub is_within_limits_iff :
    (requested ceiling : CapacityLimits)
    → (is_within_limits requested ceiling ≡ true) ↔ IsWithin requested ceiling
unfolding is_within_limits
is_within_limits_iff requested ceiling = ((λ h. ground arith), (λ w. ground arith))

starts_with_split :
    (value prefix : Text)
    → starts_with value prefix ≡ true
    → (rest : Text) × (value ≡ prefix ++ rest)
unfolding starts_with
starts_with_split value [] h = (value, refl)
starts_with_split [] (d ∷ prefix) h = cc
starts_with_split (c ∷ value) (d ∷ prefix) h =
    let parts : (nat_beq c d ≡ true) × (starts_with value prefix ≡ true) = ground arith in
    let (rest, same) = starts_with_split value prefix (parts.1) in
    (rest, cc ((nat_beq_iff c d).0 (parts.0), same))

starts_with-append : (prefix rest : Text) → starts_with (prefix ++ rest) prefix ≡ true
unfolding starts_with
starts_with-append [] rest = refl
starts_with-append (c ∷ prefix) rest = ground (arith, starts_with-append prefix rest)

without_last-star : (s : Text) → ends_with s b'*' ≡ true → s ≡ without_last s ++ b'*' ∷ []
unfolding ends_with without_last
without_last-star [] h = cc
without_last-star (c ∷ []) h = ap (λ k. k ∷ []) ((nat_beq_iff c b'*').0 h)
without_last-star (c ∷ d ∷ s) h = ap (λ l. c ∷ l) (without_last-star (d ∷ s) h)

ends_with-star : (s : Text) → ends_with (s ++ b'*' ∷ []) b'*' ≡ true
unfolding ends_with
ends_with-star [] = refl
ends_with-star (c ∷ []) = refl
ends_with-star (c ∷ d ∷ s) = ends_with-star (d ∷ s)

without_last-append : (s : Text) → without_last (s ++ b'*' ∷ []) ≡ s
unfolding without_last
without_last-append [] = refl
without_last-append (c ∷ []) = refl
without_last-append (c ∷ d ∷ s) = ap (λ l. c ∷ l) (without_last-append (d ∷ s))

-- The meaning of a pattern: a model name, or a prefix followed by a star.
pub data Covers (value pattern_text : Text) : Type 0 where
  same : value ≡ pattern_text → Covers value pattern_text
  beginning :
      (prefix rest : Text)
      → pattern_text ≡ prefix ++ b'*' ∷ []
      → value ≡ prefix ++ rest
      → Covers value pattern_text

matches_pattern_sound :
    (value pattern_text : Text)
    → matches_pattern value pattern_text ≡ true
    → Covers value pattern_text
unfolding matches_pattern
matches_pattern_sound value pattern_text h = elim (Bool-cases (pattern_text == text "*")) [
  | inl star ↦ beginning [] value (star_text pattern_text star) refl
  | inr other ↦ elim (Bool-cases (ends_with pattern_text b'*')) [
    | inl open_end ↦
        let (rest, found) = starts_with_split value (without_last pattern_text) (ground arith) in
        beginning (without_last pattern_text) rest (without_last-star pattern_text open_end) found
    | inr closed ↦ same ((text_beq_iff value pattern_text).0 (ground arith))
  ]
]
  where
    star_text : (s : Text) → (s == text "*") ≡ true → s ≡ [] ++ b'*' ∷ []
    star_text s e = (text_beq_iff s (text "*")).0 e ∙ unfold text in refl

matches_pattern_complete :
    (value pattern_text : Text)
    → Covers value pattern_text
    → matches_pattern value pattern_text ≡ true
unfolding matches_pattern
matches_pattern_complete value pattern_text (same e) =
    elim (Bool-cases (ends_with pattern_text b'*')) [
      | inl open_end ↦
          let whole = e ∙ without_last-star pattern_text open_end in
          let begins =
            ap (λ v. starts_with v (without_last pattern_text)) whole
            ∙ starts_with-append (without_last pattern_text) (b'*' ∷ []) in
          ground arith
      | inr closed ↦ ground (arith, text_beq_iff value pattern_text)
    ]
matches_pattern_complete value pattern_text (beginning prefix rest p v) =
    let closed = ap (λ s. ends_with s b'*') p ∙ ends_with-star prefix in
    let stem = ap without_last p ∙ without_last-append prefix in
    let begins = ap₂ starts_with v stem ∙ starts_with-append prefix rest in ground arith

-- A model passes a pattern exactly if it is the pattern, or the pattern is a prefix of it with a star
-- behind.
pub matches_pattern_iff :
    (value pattern_text : Text)
    → (matches_pattern value pattern_text ≡ true) ↔ Covers value pattern_text
matches_pattern_iff value pattern_text =
    (matches_pattern_sound value pattern_text, matches_pattern_complete value pattern_text)

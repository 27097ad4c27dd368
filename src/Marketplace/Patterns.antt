-- ===== src/Marketplace/Patterns.antt =====
-- The scope tests that packages/marketplace-domain/src/capacity-offer.ts and gateway-attestation.ts
-- both have: model patterns, capacity ceilings.
pub mod Covers
use token_streaming.Common.{Bool, true, false, ◌&&◌, leb, ◌==◌, if◌then◌else◌}
use token_streaming.Js.Texts.{Text, text, text_eq, starts_with, ends_with, without_last}
use token_streaming.Marketplace.Protocol.{CapacityLimits}

unfoldable pub matches_pattern : Text → Text → Bool
matches_pattern value pattern_text =
    if pattern_text == text "*"
    then true
    else if ends_with pattern_text b'*'
    then starts_with value (without_last pattern_text)
    else value == pattern_text

-- `isWithinCapacityCeiling` and `withinLimits`
unfoldable pub is_within_limits : CapacityLimits → CapacityLimits → Bool
is_within_limits requested ceiling =
    leb requested.requests_per_minute ceiling.requests_per_minute
    && leb requested.tokens_per_minute ceiling.tokens_per_minute
    && leb requested.concurrency ceiling.concurrency
    && leb requested.max_output_tokens ceiling.max_output_tokens

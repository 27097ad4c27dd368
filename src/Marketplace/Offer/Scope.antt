-- ===== src/Marketplace/Offer/Scope.antt =====
-- What `assertAuthorizationScope` and the window test establish
-- (packages/marketplace-domain/src/capacity-offer.ts).
use token_streaming.Common.{
  ℕ, ◌≤◌, ◌≡◌, ◌∙◌, ap, subst, Bool, true, false, not, ◌&&◌, ◌||◌, ◌⊎◌, inl, inr, List, Memᴰ, All,
  contains, contains-Memᴰ, any-Memᴰ, all-All, ltb, arith, Bool-cases, if◌then◌else◌, Option, none,
  some,
}
use token_streaming.Common.Outcome.{ok, throw_if, ◌>>=◌, >>=-eq-ok, throw_if-eq-ok, ok-injective}
use token_streaming.Js.{Engine}
use token_streaming.Js.Texts.{Text, text, text_eq, text_beq_iff}
use token_streaming.Marketplace.Errors.{authorization_required, authorization_scope_mismatch}
use token_streaming.Marketplace.Protocol.{Authorization, OfferInput, DataClass, data_class_eq}
use token_streaming.Marketplace.Validation.{parse_timestamp, timestamp_of}
use token_streaming.Marketplace.Supplier.Rules.{is_authorization_active}
use token_streaming.Marketplace.Supplier.Contexts.{parse_timestamp_iff-ok}
use token_streaming.Marketplace.Patterns.{matches_pattern}
use token_streaming.Marketplace.Patterns.Covers.{
  Covers, IsWithin, is_within_limits_iff, matches_pattern_iff,
}
use token_streaming.Marketplace.Offer.{is_in_scope, assert_authorization_scope, exceeds_window}

-- The offer asks only for what the authorization allows.
pub record IsInScope (authorization : Authorization) (input : OfferInput) : Type 0 where
  pub provider : authorization.provider_id ≡ input.provider_id
  pub model_pattern : Text
  pub listed : Memᴰ model_pattern authorization.model_patterns
  pub covered : Covers input.model model_pattern
  pub region :
      Memᴰ (text "*") authorization.region_codes ⊎ Memᴰ input.region_code authorization.region_codes
  pub classes :
      All (λ (c : DataClass). Memᴰ c authorization.allowed_data_classes) input.data_classes
  pub limits : IsWithin input.limits authorization.capacity_ceiling

five :
    (a b c d e : Bool)
    → (a && b && c && d && e) ≡ true
    → (a ≡ true) × (b ≡ true) × (c ≡ true) × (d ≡ true) × (e ≡ true)
five a b c d e h = ground arith

region_found :
    (codes : List Text) (code : Text)
    → (contains codes (text "*") || contains codes code) ≡ true
    → Memᴰ (text "*") codes ⊎ Memᴰ code codes
region_found codes code h = elim (Bool-cases (contains codes (text "*"))) [
  | inl star ↦ inl (contains-Memᴰ codes (text "*") star)
  | inr other ↦ inr (contains-Memᴰ codes code (ground arith))
]

pub IsInScope-of_test :
    (authorization : Authorization) (input : OfferInput)
    → is_in_scope authorization input ≡ true
    → IsInScope authorization input
unfolding is_in_scope
IsInScope-of_test authorization input h =
    let (p, m, r, c, l) = five _ _ _ _ _ h in
    let (model_pattern, listed, covered) =
      any-Memᴰ (matches_pattern input.model) authorization.model_patterns m in
    record {
      provider = (text_beq_iff authorization.provider_id input.provider_id).0 p;
      model_pattern = model_pattern;
      listed = listed;
      covered = (matches_pattern_iff input.model model_pattern).0 covered;
      region = region_found authorization.region_codes input.region_code r;
      classes =
          all-All (λ (k : DataClass). Memᴰ k authorization.allowed_data_classes)
            (contains authorization.allowed_data_classes) input.data_classes
            (contains-Memᴰ authorization.allowed_data_classes) c;
      limits = (is_within_limits_iff input.limits authorization.capacity_ceiling).0 l;
    }

-- The offer's window stands inside the authorization's.
pub record IsInside (js : Engine) (input : OfferInput) (authorization : Authorization)
    : Type 0 where
  pub least : ℕ
  pub from : ℕ
  pub until : ℕ
  pub most : ℕ
  pub authorized_from : timestamp_of js authorization.valid_from ≡ some least
  pub offered_from : timestamp_of js input.valid_from ≡ some from
  pub offered_until : timestamp_of js input.valid_until ≡ some until
  pub authorized_until : timestamp_of js authorization.valid_until ≡ some most
  pub begins : least ≤ from
  pub ends : until ≤ most

pub IsInside-of_test :
    (js : Engine) (input : OfferInput) (authorization : Authorization)
    → exceeds_window js input authorization ≡ ok false
    → IsInside js input authorization
unfolding exceeds_window
IsInside-of_test js input authorization h =
    let (from, a, h1) = >>=-eq-ok (parse_timestamp js input.valid_from) _ h in
    let (least, b, h2) = >>=-eq-ok (parse_timestamp js authorization.valid_from) _ h1 in
    inside from least a b h2
  where
    inside :
        (from least : ℕ)
        → parse_timestamp js input.valid_from ≡ ok from
        → parse_timestamp js authorization.valid_from ≡ ok least
        → (if ltb from least then ok true else (do
          until ← parse_timestamp js input.valid_until
          most ← parse_timestamp js authorization.valid_until
          ok (ltb most until)))
          ≡ ok false
        → IsInside js input authorization
    inside from least a b h2 = elim (Bool-cases (ltb from least)) [
      | inl early ↦ let bad = rw early at h2 in cc
      | inr late ↦
          let h3 = rw late at h2 in
          let (until, c, h4) = >>=-eq-ok (parse_timestamp js input.valid_until) _ h3 in
          let (most, d, h5) = >>=-eq-ok (parse_timestamp js authorization.valid_until) _ h4 in
          let e : ltb most until ≡ false = ok-injective h5 in
          record {
            least = least;
            from = from;
            until = until;
            most = most;
            authorized_from = parse_timestamp_iff-ok js authorization.valid_from least b;
            offered_from = parse_timestamp_iff-ok js input.valid_from from a;
            offered_until = parse_timestamp_iff-ok js input.valid_until until c;
            authorized_until = parse_timestamp_iff-ok js authorization.valid_until most d;
            begins = ground arith;
            ends = ground arith;
          }
    ]

-- An authorization that passes is the one that was found, active, and in scope.
pub authorized :
    (js : Engine) (found : Option Authorization) (input : OfferInput) (instant : Text)
    (authorization : Authorization)
    → assert_authorization_scope js found input instant ≡ ok authorization
    → (found ≡ some authorization)
      × (is_authorization_active js instant authorization ≡ ok true)
      × IsInScope authorization input
unfolding assert_authorization_scope
authorized js none input instant authorization h = cc
authorized js (some a) input instant authorization h =
    let (active, x, h1) = >>=-eq-ok (is_authorization_active js instant a) _ h in
    let (_, y, h2) = >>=-eq-ok (throw_if (not active) authorization_required) _ h1 in
    let (_, z, h3) =
      >>=-eq-ok (throw_if (not (is_in_scope a input)) authorization_scope_mismatch) _ h2 in
    let same = ok-injective h3 in
    (
      ap (λ k. some k) same,
      subst (λ k. is_authorization_active js instant k ≡ ok true) same
          (x ∙ ap ok (held active (throw_if-eq-ok _ _ y))),
      subst (λ k. IsInScope k input) same
          (IsInScope-of_test a input (held (is_in_scope a input) (throw_if-eq-ok _ _ z))),
    )
  where
    held : (b : Bool) → not b ≡ false → b ≡ true
    held b e = ground arith

-- ===== src/Marketplace/Supplier/Rules.antt =====
-- packages/marketplace-domain/src/supplier.ts: the rules that the commands and the history share.
use token_streaming.Common.{
  Bool, true, false, not, ◌&&◌, Option, none, some, List, [], ◌∷◌, find, ltb, ◌==◌, if◌then◌else◌,
  is_some,
}
use token_streaming.Common.Outcome.{ok, some_ok, filter_ok, ◌>>=◌}
use token_streaming.Js.{Engine}
use token_streaming.Js.Texts.{Text, text_eq}
use token_streaming.Marketplace.Errors.{Result}
use token_streaming.Marketplace.Protocol.{
  SupplierKind, SupplierStatus, VerificationKind, VerificationStatus, AuthorizationStatus,
  Verification, Authorization, SupplierState, kind_eq, outcome_eq, authorization_eq,
}
use token_streaming.Marketplace.Validation.{parse_timestamp, is_active_at}

-- `REQUIRED_VERIFICATIONS` and `requiredVerificationKinds`
unfoldable pub required_verification_kinds : SupplierKind → List VerificationKind
required_verification_kinds SupplierKind.individual =
    VerificationKind.identity ∷ VerificationKind.tax ∷ VerificationKind.payout ∷ []
required_verification_kinds SupplierKind.organization =
    VerificationKind.business ∷ VerificationKind.beneficial_ownership ∷ VerificationKind.tax
    ∷ VerificationKind.payout ∷ []

unfoldable pub is_authorization_active : Engine → Text → Authorization → Result Bool
is_authorization_active js instant authorization =
    if authorization.status == AuthorizationStatus.active
    then is_active_at js authorization.valid_from authorization.valid_until instant
    else ok false

-- `!verification.expiresAt || expiresAt > instant`; the times are read only if there is an expiry.
unfoldable pub is_current : Engine → Text → Option Verification → Result Bool
is_current js instant none = ok false
is_current js instant (some verification) = elim verification.expires_at [
  | none ↦ ok true
  | some expires_at ↦ (do
    expires ← parse_timestamp js expires_at
    at ← parse_timestamp js instant
    ok (ltb at expires))
]

unfoldable pub has_current_verification :
    Engine → SupplierState → Text → VerificationKind → Result Bool
has_current_verification js state instant kind =
    is_current js instant
      (find (λ v. v.kind == kind && v.status == VerificationStatus.verified) state.verifications)

abbrev pub negate : Result Bool → Result Bool
negate m = m >>= λ b. ok (not b)

unfoldable pub missing_required_verification_kinds :
    Engine → SupplierState → Text → Result (List VerificationKind)
missing_required_verification_kinds js state instant =
    filter_ok (λ kind. negate (has_current_verification js state instant kind))
      (required_verification_kinds state.kind)

-- `state.authorizations.some(…)` over `isAuthorizationActive`
unfoldable pub has_active_authorization : Engine → SupplierState → Text → Result Bool
has_active_authorization js state instant =
    some_ok (is_authorization_active js instant) state.authorizations

-- `status === "suspended" || status === "rejected"`
abbrev pub is_closed : SupplierStatus → Bool
is_closed SupplierStatus.suspended = true
is_closed SupplierStatus.rejected = true
is_closed _ = false

-- A verification of another kind has the identifier.
unfoldable pub is_reused : SupplierState → Verification → Bool
is_reused state input = is_some (
    find (λ v. v.verification_id == input.verification_id && not (v.kind == input.kind))
      state.verifications)

unfoldable pub find_authorization : Text → List Authorization → Option Authorization
find_authorization id authorizations = find (λ a. a.authorization_id == id) authorizations

-- `!authorization || authorization.status === "revoked"`
abbrev pub is_irrevocable : Option Authorization → Bool
is_irrevocable none = true
is_irrevocable (some a) = a.status == AuthorizationStatus.revoked

abbrev pub is_empty {ℓ} : {A : Type ℓ} → List A → Bool
is_empty [] = true
is_empty (x ∷ xs) = false

-- ===== src/Marketplace/Literals.antt =====
-- The string literals of packages/protocol/src/marketplace.ts, as the tables that
-- `assertAllowedValue` is called with, and the key lists of `assertExactKeys`
-- (packages/marketplace-domain/src/supplier.ts and capacity-offer.ts).
use token_streaming.Common.{List, [], ◌∷◌}
use token_streaming.Js.Texts.{Text, text}
use token_streaming.Marketplace.Protocol.{
  SupplierKind, VerificationKind, VerificationStatus, SourceType, AuthorizedUse, MeteringMode,
  AuthorizationStatus, DataClass,
}

unfoldable pub supplier_kinds : List (Text × SupplierKind)
supplier_kinds =
    (text "individual", SupplierKind.individual)
    ∷ (text "organization", SupplierKind.organization)
    ∷ []

unfoldable pub verification_kinds : List (Text × VerificationKind)
verification_kinds =
    (text "identity", VerificationKind.identity)
    ∷ (text "business", VerificationKind.business)
    ∷ (text "beneficial-ownership", VerificationKind.beneficial_ownership)
    ∷ (text "tax", VerificationKind.tax)
    ∷ (text "payout", VerificationKind.payout)
    ∷ []

unfoldable pub verification_statuses : List (Text × VerificationStatus)
verification_statuses =
    (text "verified", VerificationStatus.verified)
    ∷ (text "rejected", VerificationStatus.rejected)
    ∷ []

unfoldable pub source_types : List (Text × SourceType)
source_types =
    (text "api-project", SourceType.api_project)
    ∷ (text "commercial-account", SourceType.commercial_account)
    ∷ (text "subscription-plan", SourceType.subscription_plan)
    ∷ (text "self-hosted-license", SourceType.self_hosted_license)
    ∷ []

unfoldable pub authorized_uses : List (Text × AuthorizedUse)
authorized_uses =
    (text "managed-inference", AuthorizedUse.managed_inference)
    ∷ (text "inference-resale", AuthorizedUse.inference_resale)
    ∷ []

unfoldable pub metering_modes : List (Text × MeteringMode)
metering_modes =
    (text "provider-report", MeteringMode.provider_report)
    ∷ (text "signed-receipt", MeteringMode.signed_receipt)
    ∷ (text "dedicated-counter", MeteringMode.dedicated_counter)
    ∷ []

-- `revoked` is no input.
unfoldable pub input_statuses : List (Text × AuthorizationStatus)
input_statuses =
    (text "pending", AuthorizationStatus.pending)
    ∷ (text "active", AuthorizationStatus.active)
    ∷ (text "suspended", AuthorizationStatus.suspended)
    ∷ []

unfoldable pub data_class_literals : List (Text × DataClass)
data_class_literals =
    (text "P0", DataClass.p0)
    ∷ (text "P1", DataClass.p1)
    ∷ (text "P2", DataClass.p2)
    ∷ (text "P3", DataClass.p3)
    ∷ []

unfoldable pub registration_keys : List Text
registration_keys =
    text "supplierId"
    ∷ text "kind"
    ∷ text "legalName"
    ∷ text "displayName"
    ∷ text "countryCode"
    ∷ text "taxResidenceCountryCode"
    ∷ []

unfoldable pub verification_keys : List Text
verification_keys =
    text "verificationId"
    ∷ text "kind"
    ∷ text "status"
    ∷ text "evidenceRef"
    ∷ text "completedAt"
    ∷ text "expiresAt"
    ∷ []

unfoldable pub authorization_keys : List Text
authorization_keys =
    text "authorizationId"
    ∷ text "providerId"
    ∷ text "sourceType"
    ∷ text "authorizedUse"
    ∷ text "meteringMode"
    ∷ text "evidenceRef"
    ∷ text "modelPatterns"
    ∷ text "regionCodes"
    ∷ text "allowedDataClasses"
    ∷ text "capacityCeiling"
    ∷ text "validFrom"
    ∷ text "validUntil"
    ∷ text "status"
    ∷ []

unfoldable pub revocation_keys : List Text
revocation_keys = text "authorizationId" ∷ text "reasonCode" ∷ []

unfoldable pub suspension_keys : List Text
suspension_keys = text "reasonCode" ∷ []

unfoldable pub offer_keys : List Text
offer_keys =
    text "offerId"
    ∷ text "authorizationId"
    ∷ text "providerId"
    ∷ text "model"
    ∷ text "serviceTier"
    ∷ text "regionCode"
    ∷ text "dataClasses"
    ∷ text "limits"
    ∷ text "currency"
    ∷ text "rates"
    ∷ text "validFrom"
    ∷ text "validUntil"
    ∷ []

unfoldable pub rate_keys : List Text
rate_keys = text "unit" ∷ text "amountMicros" ∷ []

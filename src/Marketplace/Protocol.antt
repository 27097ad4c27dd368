-- ===== src/Marketplace/Protocol.antt =====
-- packages/protocol/src/marketplace.ts: the enumerations and records of suppliers and offers. The
-- string unions are enumerations; the literals stand in the tables of Marketplace/Literals.
use token_streaming.Common.{ℕ, Option, List, ◌≡◌, ◌↔◌, true, arith, nat_beq, Eq}
use token_streaming.Js.Texts.{Text}

-- `MARKETPLACE_SCHEMA_VERSION`
abbrev pub schema_version : ℕ
schema_version = 1

pub data SupplierKind : Type 0 where
  individual organization : SupplierKind

pub data SupplierStatus : Type 0 where
  pending_verification active suspended rejected : SupplierStatus

pub data VerificationKind : Type 0 where
  identity business beneficial_ownership tax payout : VerificationKind

pub data VerificationStatus : Type 0 where
  verified rejected : VerificationStatus

pub data SourceType : Type 0 where
  api_project commercial_account subscription_plan self_hosted_license : SourceType

pub data AuthorizedUse : Type 0 where
  managed_inference inference_resale : AuthorizedUse

pub data MeteringMode : Type 0 where
  provider_report signed_receipt dedicated_counter : MeteringMode

pub data AuthorizationStatus : Type 0 where
  pending active suspended revoked : AuthorizationStatus

pub data DataClass : Type 0 where
  p0 p1 p2 p3 : DataClass

-- A number for each literal, so that `===` computes.
abbrev status_code : SupplierStatus → ℕ
status_code SupplierStatus.pending_verification = 0
status_code SupplierStatus.active = 1
status_code SupplierStatus.suspended = 2
status_code SupplierStatus.rejected = 3

abbrev kind_code : VerificationKind → ℕ
kind_code identity = 0
kind_code business = 1
kind_code beneficial_ownership = 2
kind_code tax = 3
kind_code payout = 4

abbrev outcome_code : VerificationStatus → ℕ
outcome_code VerificationStatus.verified = 0
outcome_code VerificationStatus.rejected = 1

abbrev authorization_code : AuthorizationStatus → ℕ
authorization_code AuthorizationStatus.pending = 0
authorization_code AuthorizationStatus.active = 1
authorization_code AuthorizationStatus.suspended = 2
authorization_code AuthorizationStatus.revoked = 3

abbrev data_class_code : DataClass → ℕ
data_class_code p0 = 0
data_class_code p1 = 1
data_class_code p2 = 2
data_class_code p3 = 3

pub status_iff : (a b : SupplierStatus) → (nat_beq (status_code a) (status_code b) ≡ true) ↔ (a ≡ b)
status_iff a b = ground arith

pub kind_iff : (a b : VerificationKind) → (nat_beq (kind_code a) (kind_code b) ≡ true) ↔ (a ≡ b)
kind_iff a b = ground arith

pub outcome_iff :
    (a b : VerificationStatus) → (nat_beq (outcome_code a) (outcome_code b) ≡ true) ↔ (a ≡ b)
outcome_iff a b = ground arith

pub authorization_iff :
    (a b : AuthorizationStatus)
    → (nat_beq (authorization_code a) (authorization_code b) ≡ true) ↔ (a ≡ b)
authorization_iff a b = ground arith

pub data_class_iff :
    (a b : DataClass) → (nat_beq (data_class_code a) (data_class_code b) ≡ true) ↔ (a ≡ b)
data_class_iff a b = ground arith

instance abbrev pub status_eq : Eq SupplierStatus
status_eq = record { beq = λ a b. nat_beq (status_code a) (status_code b); beq_iff = status_iff }

instance abbrev pub kind_eq : Eq VerificationKind
kind_eq = record { beq = λ a b. nat_beq (kind_code a) (kind_code b); beq_iff = kind_iff }

instance abbrev pub outcome_eq : Eq VerificationStatus
outcome_eq = record {
  beq = λ a b. nat_beq (outcome_code a) (outcome_code b);
  beq_iff = outcome_iff;
}

instance abbrev pub authorization_eq : Eq AuthorizationStatus
authorization_eq = record {
  beq = λ a b. nat_beq (authorization_code a) (authorization_code b);
  beq_iff = authorization_iff;
}

instance abbrev pub data_class_eq : Eq DataClass
data_class_eq = record {
  beq = λ a b. nat_beq (data_class_code a) (data_class_code b);
  beq_iff = data_class_iff;
}

pub record RegistrationInput : Type 0 where
  pub supplier_id : Text
  pub kind : SupplierKind
  pub legal_name : Text
  pub display_name : Text
  pub country_code : Text
  pub tax_residence_country_code : Text

-- Of `expiresAt` the code asks only whether it is falsy: `none` is any falsy value.
pub record Verification : Type 0 where
  pub verification_id : Text
  pub kind : VerificationKind
  pub status : VerificationStatus
  pub evidence_ref : Text
  pub completed_at : Text
  pub expires_at : Option Text

pub record CapacityLimits : Type 0 where
  pub requests_per_minute : ℕ
  pub tokens_per_minute : ℕ
  pub concurrency : ℕ
  pub max_output_tokens : ℕ

-- `ProviderAuthorizationInput` and `ProviderAuthorization`, which adds the status `revoked`.
pub record Authorization : Type 0 where
  pub authorization_id : Text
  pub provider_id : Text
  pub source_type : SourceType
  pub authorized_use : AuthorizedUse
  pub metering_mode : MeteringMode
  pub evidence_ref : Text
  pub model_patterns : List Text
  pub region_codes : List Text
  pub allowed_data_classes : List DataClass
  pub capacity_ceiling : CapacityLimits
  pub valid_from : Text
  pub valid_until : Text
  pub status : AuthorizationStatus

pub record Context : Type 0 where
  pub tenant_id : Text
  pub actor_id : Text
  pub command_id : Text
  pub event_id : Text
  pub occurred_at : Text

-- The fields of `MarketplaceEventEnvelope` beside `type` and `payload`.
pub record Envelope : Type 0 where
  pub schema_version : ℕ
  pub event_id : Text
  pub tenant_id : Text
  pub actor_id : Text
  pub causation_id : Text
  pub aggregate_type : Text
  pub aggregate_id : Text
  pub aggregate_version : ℕ
  pub occurred_at : Text

-- `type` with its payload; `unsupported` is any other type.
pub data SupplierPayload : Type 0 where
  registered : RegistrationInput → SupplierPayload
  verification_recorded : Verification → SupplierPayload
  authorization_recorded : Authorization → SupplierPayload
  authorization_revoked : (authorization_id reason_code : Text) → SupplierPayload
  activated : (activated_at : Text) → SupplierPayload
  suspended : (reason_code : Text) → SupplierPayload
  unsupported : SupplierPayload

pub record SupplierEvent : Type 0 where
  pub envelope : Envelope
  pub open envelope use *
  pub payload : SupplierPayload

pub record SupplierState : Type 0 where
  pub supplier_id : Text
  pub tenant_id : Text
  pub kind : SupplierKind
  pub legal_name : Text
  pub display_name : Text
  pub country_code : Text
  pub tax_residence_country_code : Text
  pub status : SupplierStatus
  pub verifications : List Verification
  pub authorizations : List Authorization
  pub version : ℕ
  pub created_at : Text
  pub updated_at : Text

pub record Rate : Type 0 where
  pub unit : Text
  pub amount_micros : Text

pub record OfferInput : Type 0 where
  pub offer_id : Text
  pub authorization_id : Text
  pub provider_id : Text
  pub model : Text
  pub service_tier : Option Text
  pub region_code : Text
  pub data_classes : List DataClass
  pub limits : CapacityLimits
  pub currency : Text
  pub rates : List Rate
  pub valid_from : Text
  pub valid_until : Text

pub record OfferPayload : Type 0 where
  pub input : OfferInput
  pub open input use *
  pub supplier_id : Text
  pub source_type : SourceType

pub record OfferEvent : Type 0 where
  pub envelope : Envelope
  pub open envelope use *
  pub payload : OfferPayload

-- The status of an offer is always `active`.
pub record OfferState : Type 0 where
  pub offer : OfferPayload
  pub tenant_id : Text
  pub version : ℕ
  pub published_at : Text

-- ===== src/Marketplace/Cast.antt =====
-- A concrete supplier with its history, and an offer of it, for the tests; it models no code.
use token_streaming.Common.{ℕ, none, List, [], ◌∷◌}
use token_streaming.Js.Texts.{Text, text, text_eq}
use token_streaming.Marketplace.Protocol.{
  schema_version, SupplierKind, SupplierStatus, VerificationKind, VerificationStatus, SourceType,
  AuthorizedUse, MeteringMode, AuthorizationStatus, DataClass, RegistrationInput, Verification,
  CapacityLimits, Authorization, SupplierPayload, SupplierEvent, SupplierState, OfferInput,
  OfferEvent,
}
use token_streaming.Marketplace.World.{calendar, objects, engine}

unfoldable pub identity_check : Verification
unfolding text
identity_check = record {
  verification_id = text "ver-1";
  kind = VerificationKind.identity;
  status = VerificationStatus.verified;
  evidence_ref = text "ref-1";
  completed_at = text "2026-01-01T00:00:00Z";
  expires_at = none;
}

unfoldable pub tax_check : Verification
unfolding text
tax_check = record {
  verification_id = text "ver-2";
  kind = VerificationKind.tax;
  status = VerificationStatus.verified;
  evidence_ref = text "ref-2";
  completed_at = text "2026-01-01T00:00:00Z";
  expires_at = none;
}

unfoldable pub payout_check : Verification
unfolding text
payout_check = record {
  verification_id = text "ver-3";
  kind = VerificationKind.payout;
  status = VerificationStatus.verified;
  evidence_ref = text "ref-3";
  completed_at = text "2026-01-01T00:00:00Z";
  expires_at = none;
}

unfoldable pub ceiling : CapacityLimits
ceiling = record {
  requests_per_minute = 60;
  tokens_per_minute = 20_000;
  concurrency = 4;
  max_output_tokens = 2_000;
}

unfoldable pub permission : Authorization
unfolding text ceiling
permission = record {
  authorization_id = text "auth-1";
  provider_id = text "provider-1";
  source_type = SourceType.api_project;
  authorized_use = AuthorizedUse.inference_resale;
  metering_mode = MeteringMode.signed_receipt;
  evidence_ref = text "ref-4";
  model_patterns = text "model-*" ∷ [];
  region_codes = text "*" ∷ [];
  allowed_data_classes = DataClass.p0 ∷ DataClass.p1 ∷ [];
  capacity_ceiling = ceiling;
  valid_from = text "2026-01-01T00:00:00Z";
  valid_until = text "2026-12-31T00:00:00Z";
  status = AuthorizationStatus.active;
}

unfoldable pub registration : RegistrationInput
unfolding text
registration = record {
  supplier_id = text "supplier-1";
  kind = SupplierKind.individual;
  legal_name = text "Ada L";
  display_name = text "Ada";
  country_code = text "DE";
  tax_residence_country_code = text "DE";
}

-- The event of a version at a time.
unfoldable pub event_at : Text → Text → ℕ → Text → SupplierPayload → SupplierEvent
unfolding text
event_at event_id command_id version at payload = record {
  envelope = record {
    schema_version = schema_version;
    event_id = event_id;
    tenant_id = text "tenant-1";
    actor_id = text "actor-1";
    causation_id = command_id;
    aggregate_type = text "supplier";
    aggregate_id = text "supplier-1";
    aggregate_version = version;
    occurred_at = at;
  };
  payload = payload;
}

unfoldable pub registered_event : SupplierEvent
unfolding event_at registration
registered_event =
    event_at (text "evt-1") (text "cmd-1") 1 (text "2026-01-01T00:00:00Z")
      (SupplierPayload.registered registration)

-- The history of a supplier that has all it needs and is not activated.
unfoldable pub history : List SupplierEvent
unfolding registered_event event_at identity_check tax_check payout_check permission text
history =
    registered_event
    ∷ event_at (text "evt-2") (text "cmd-2") 2 (text "2026-01-01T00:00:00Z")
        (SupplierPayload.verification_recorded identity_check)
    ∷ event_at (text "evt-3") (text "cmd-3") 3 (text "2026-01-01T00:00:00Z")
        (SupplierPayload.verification_recorded tax_check)
    ∷ event_at (text "evt-4") (text "cmd-4") 4 (text "2026-01-01T00:00:00Z")
        (SupplierPayload.verification_recorded payout_check)
    ∷ event_at (text "evt-5") (text "cmd-5") 5 (text "2026-01-01T00:00:00Z")
        (SupplierPayload.authorization_recorded permission)
    ∷ []

unfoldable pub activation : SupplierEvent
unfolding event_at text
activation =
    event_at (text "evt-6") (text "cmd-6") 6 (text "2026-01-02T00:00:00Z")
      (SupplierPayload.activated (text "2026-01-02T00:00:00Z"))

unfoldable pub suspension : SupplierEvent
unfolding event_at text
suspension =
    event_at (text "evt-7") (text "cmd-7") 7 (text "2026-01-02T00:00:00Z")
      (SupplierPayload.suspended (text "fraud-review"))

unfoldable pub withdrawal : SupplierEvent
unfolding event_at text
withdrawal =
    event_at (text "evt-8") (text "cmd-8") 8 (text "2026-06-01T00:00:00Z")
      (SupplierPayload.authorization_revoked (text "auth-1") (text "expired"))

unfoldable pub offered : OfferInput
unfolding text
offered = record {
  offer_id = text "offer-1";
  authorization_id = text "auth-1";
  provider_id = text "provider-1";
  model = text "model-a";
  service_tier = none;
  region_code = text "DE";
  data_classes = DataClass.p0 ∷ [];
  limits = record {
    requests_per_minute = 60;
    tokens_per_minute = 10_000;
    concurrency = 2;
    max_output_tokens = 1_000;
  };
  currency = text "EUR";
  rates = record { unit = text "token"; amount_micros = text "3" } ∷ [];
  valid_from = text "2026-01-02T00:00:00Z";
  valid_until = text "2026-06-01T00:00:00Z";
}

unfoldable pub published_offer : OfferEvent
unfolding text offered
published_offer = record {
  envelope = record {
    schema_version = schema_version;
    event_id = text "evt-9";
    tenant_id = text "tenant-1";
    actor_id = text "actor-1";
    causation_id = text "cmd-9";
    aggregate_type = text "capacity-offer";
    aggregate_id = text "offer-1";
    aggregate_version = 1;
    occurred_at = text "2026-01-02T00:00:00Z";
  };
  payload = record {
    input = offered;
    supplier_id = text "supplier-1";
    source_type = SourceType.api_project;
  };
}

-- The supplier of a status, a version, and the authorizations it holds.
unfoldable pub supplier_as : SupplierStatus → ℕ → Text → List Authorization → SupplierState
unfolding text identity_check tax_check payout_check
supplier_as status version updated_at authorizations = record {
  supplier_id = text "supplier-1";
  tenant_id = text "tenant-1";
  kind = SupplierKind.individual;
  legal_name = text "Ada L";
  display_name = text "Ada";
  country_code = text "DE";
  tax_residence_country_code = text "DE";
  status = status;
  verifications = identity_check ∷ tax_check ∷ payout_check ∷ [];
  authorizations = authorizations;
  version = version;
  created_at = text "2026-01-01T00:00:00Z";
  updated_at = updated_at;
}

unfoldable pub waiting : SupplierState
unfolding supplier_as permission text
waiting =
    supplier_as SupplierStatus.pending_verification 5 (text "2026-01-01T00:00:00Z")
      (permission ∷ [])

unfoldable pub selling : SupplierState
unfolding supplier_as permission text
selling = supplier_as SupplierStatus.active 6 (text "2026-01-02T00:00:00Z") (permission ∷ [])

unfoldable pub stopped : SupplierState
unfolding supplier_as permission text
stopped = supplier_as SupplierStatus.suspended 7 (text "2026-01-02T00:00:00Z") (permission ∷ [])

unfoldable pub withdrawn : SupplierState
unfolding supplier_as permission text
withdrawn =
    supplier_as SupplierStatus.suspended 8 (text "2026-06-01T00:00:00Z")
      (record permission { status = AuthorizationStatus.revoked } ∷ [])

-- Opens the definitions above.
unfoldable pub world : Unit {0}
unfolding calendar objects engine identity_check tax_check payout_check ceiling permission
    registration event_at registered_event history activation suspension withdrawal offered
    published_offer supplier_as waiting selling stopped withdrawn
world = tt

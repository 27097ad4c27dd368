-- ===== src/Marketplace/Supplier/History.antt =====
-- packages/marketplace-domain/src/supplier.ts: replaying a history. An entry is an event object; its
-- version is a natural number here, and the test refuses zero and unsafe ones.
use token_streaming.Common.{
  ℕ, ◌+◌, Bool, true, false, not, ◌||◌, Option, none, some, List, [], ◌∷◌, ◌++◌, map, any, keep,
  contains, ltb, leb, nat_eq, ◌==◌, if◌then◌else◌,
}
use token_streaming.Common.Outcome.{ok, err, throw_if, ◌>>=◌, ◌>>◌}
use token_streaming.Js.{Engine, max_safe}
use token_streaming.Js.Texts.{Text, text, text_eq}
use token_streaming.Marketplace.Errors.{Result, invalid_event_history}
use token_streaming.Marketplace.Protocol.{
  SupplierStatus, AuthorizationStatus, Verification, Authorization, RegistrationInput,
  SupplierPayload, registered, verification_recorded, authorization_recorded, authorization_revoked,
  activated, suspended, unsupported, SupplierEvent, SupplierState, status_eq, kind_eq,
  schema_version,
}
use token_streaming.Marketplace.Validation.{is_identifier, timestamp_of}
use token_streaming.Marketplace.Supplier.Rules.{
  is_closed, is_reused, find_authorization, is_irrevocable, is_empty,
  missing_required_verification_kinds, has_active_authorization,
}

-- `assertHistoryIdentifier` and `historyTimestamp`
unfoldable pub assert_history_identifier : Text → Result (Unit {0})
assert_history_identifier value = throw_if (not (is_identifier value)) invalid_event_history

unfoldable pub history_timestamp : Engine → Text → Result ℕ
history_timestamp js value = elim (timestamp_of js value) [
  | none ↦ err invalid_event_history
  | some at ↦ ok at
]

-- `advance`
unfoldable pub advance : SupplierState → SupplierEvent → SupplierState
advance state event = record state {
  version = event.aggregate_version;
  updated_at = event.occurred_at;
}

unfoldable pub created : SupplierEvent → RegistrationInput → SupplierState
created event input = record {
  supplier_id = input.supplier_id;
  tenant_id = event.tenant_id;
  kind = input.kind;
  legal_name = input.legal_name;
  display_name = input.display_name;
  country_code = input.country_code;
  tax_residence_country_code = input.tax_residence_country_code;
  status = SupplierStatus.pending_verification;
  verifications = [];
  authorizations = [];
  version = event.aggregate_version;
  created_at = event.occurred_at;
  updated_at = event.occurred_at;
}

unfoldable pub with_verification : Verification → List Verification → List Verification
with_verification input verifications =
    keep (λ v. not (v.kind == input.kind)) verifications ++ input ∷ []

unfoldable pub revoke : Text → Authorization → Authorization
revoke id authorization =
    if authorization.authorization_id == id
    then record authorization { status = AuthorizationStatus.revoked }
    else authorization

-- The events after the first one, on the state that they find.
unfoldable pub apply_to :
    Engine → SupplierState → SupplierEvent → SupplierPayload → Result SupplierState
apply_to js state event (registered input) = err invalid_event_history
apply_to js state event (verification_recorded input) = do
  throw_if (is_closed state.status) invalid_event_history
  throw_if (is_reused state input) invalid_event_history
  ok (record (advance state event) { verifications = with_verification input state.verifications })
apply_to js state event (authorization_recorded input) = do
  throw_if (is_closed state.status) invalid_event_history
  throw_if (any (λ a. a.authorization_id == input.authorization_id) state.authorizations)
      invalid_event_history
  ok (record (advance state event) { authorizations = state.authorizations ++ input ∷ [] })
apply_to js state event (authorization_revoked id reason_code) = do
  throw_if (is_irrevocable (find_authorization id state.authorizations)) invalid_event_history
  ok (record (advance state event) { authorizations = map (revoke id) state.authorizations })
apply_to js state event (activated activated_at) = do
  throw_if
      (not (state.status == SupplierStatus.pending_verification)
        || not (activated_at == event.occurred_at))
      invalid_event_history
  missing ← missing_required_verification_kinds js state event.occurred_at
  throw_if (not (is_empty missing)) invalid_event_history
  authorized ← has_active_authorization js state event.occurred_at
  throw_if (not authorized) invalid_event_history
  ok (record (advance state event) { status = SupplierStatus.active })
apply_to js state event (suspended reason_code) = do
  throw_if (is_closed state.status) invalid_event_history
  ok (record (advance state event) { status = SupplierStatus.suspended })
apply_to js state event unsupported = err invalid_event_history

-- The first event.
abbrev pub apply_first : SupplierEvent → SupplierPayload → Result SupplierState
apply_first event (registered input) = ok (created event input)
apply_first event _ = err invalid_event_history

unfoldable pub apply_supplier_event :
    Engine → Option SupplierState → SupplierEvent → Result SupplierState
apply_supplier_event js none event = apply_first event event.payload
apply_supplier_event js (some state) event = apply_to js state event event.payload

-- The variables of the loop of `rehydrateSupplier`.
pub record Replay : Type 0 where
  pub state : Option SupplierState
  pub event_ids : List Text
  pub causation_ids : List Text
  pub previous : Option ℕ

abbrev pub version_of : Option SupplierState → ℕ
version_of none = 0
version_of (some state) = state.version

-- `previousOccurredAt !== undefined && occurredAt < previousOccurredAt`
abbrev pub is_before : ℕ → Option ℕ → Bool
is_before at none = false
is_before at (some previous) = ltb at previous

-- `!state && event.type !== "supplier.registered"`
abbrev pub is_wrong_start : Option SupplierState → SupplierPayload → Bool
is_wrong_start none (registered input) = false
is_wrong_start none _ = true
is_wrong_start (some state) _ = false

-- A registration whose payload names another aggregate.
abbrev pub is_misnamed : Text → SupplierPayload → Bool
is_misnamed aggregate_id (registered input) = not (aggregate_id == input.supplier_id)
is_misnamed aggregate_id _ = false

abbrev pub is_foreign : SupplierEvent → Option SupplierState → Bool
is_foreign event none = false
is_foreign event (some state) =
    not (event.aggregate_id == state.supplier_id) || not (event.tenant_id == state.tenant_id)

-- `assertHistoryIdentifier` of the five identifiers of an envelope.
unfoldable pub assert_envelope_identifiers : SupplierEvent → Result (Unit {0})
assert_envelope_identifiers event = do
  assert_history_identifier event.event_id
  assert_history_identifier event.tenant_id
  assert_history_identifier event.actor_id
  assert_history_identifier event.causation_id
  assert_history_identifier event.aggregate_id

abbrev pub is_foreign_envelope : SupplierEvent → Bool
is_foreign_envelope event =
    not (event.schema_version == schema_version) || not (event.aggregate_type == text "supplier")

-- One round of the loop.
unfoldable pub replay_event : Engine → Replay → SupplierEvent → Result Replay
replay_event js replay event = do
  throw_if (is_foreign_envelope event) invalid_event_history
  assert_envelope_identifiers event
  throw_if (not (leb event.aggregate_version max_safe) || not (ltb 0 event.aggregate_version))
      invalid_event_history
  at ← history_timestamp js event.occurred_at
  throw_if (is_before at replay.previous) invalid_event_history
  throw_if (contains replay.event_ids event.event_id) invalid_event_history
  throw_if (contains replay.causation_ids event.causation_id) invalid_event_history
  throw_if (not (event.aggregate_version == version_of replay.state + 1)) invalid_event_history
  throw_if (is_wrong_start replay.state event.payload) invalid_event_history
  throw_if (is_misnamed event.aggregate_id event.payload) invalid_event_history
  throw_if (is_foreign event replay.state) invalid_event_history
  state ← apply_supplier_event js replay.state event
  ok (record {
    state = some state;
    event_ids = event.event_id ∷ replay.event_ids;
    causation_ids = event.causation_id ∷ replay.causation_ids;
    previous = some at;
  })

unfoldable pub replay_events : Engine → Replay → List SupplierEvent → Result Replay
replay_events js replay [] = ok replay
replay_events js replay (event ∷ events) = do
  next ← replay_event js replay event
  replay_events js next events

abbrev pub start : Replay
start = record { state = none; event_ids = []; causation_ids = []; previous = none }

unfoldable pub rehydrate_supplier : Engine → List SupplierEvent → Result (Option SupplierState)
rehydrate_supplier js events = do replay ← replay_events js start events; ok replay.state

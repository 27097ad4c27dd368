-- ===== src/Marketplace/Supplier/Replayed.antt =====
-- Commands and histories agree (packages/marketplace-domain/src/supplier.ts).
use token_streaming.Common.{
  sym, ap, subst, ◌∙◌, ℕ, ◌+◌, ◌≤◌, ◌≡◌, refl, true, some, List, [], ◌∷◌, ◌++◌, arith, nat_eq,
}
use token_streaming.Common.Outcome.{ok, >>=-eq-ok, ok-injective}
use token_streaming.Js.{Engine, Value, get, str, max_safe}
use token_streaming.Js.Texts.{text, text_eq, text_beq_iff}
use token_streaming.Marketplace.Protocol.{
  schema_version, SupplierStatus, RegistrationInput, Context, SupplierPayload, SupplierEvent,
  SupplierState,
}
use token_streaming.Marketplace.Literals.{registration_keys}
use token_streaming.Marketplace.SafeInput.{assert_safe_input}
use token_streaming.Marketplace.Validation.{
  assert_context, assert_exact_keys, is_identifier, assert_identifier,
}
use token_streaming.Marketplace.Supplier.Inputs.{read_registration}
use token_streaming.Marketplace.Supplier.Commands.{supplier_event, register_supplier}
use token_streaming.Marketplace.Supplier.History.{
  start, created, apply_supplier_event, rehydrate_supplier,
}
use token_streaming.Marketplace.Supplier.Accepts.{
  Accepts, after, replay_event-of_Accepts, replay_events-append, replay_one,
}
use token_streaming.Marketplace.Supplier.Consistent.{
  Continues, apply_to-Continues, ok_of_identifiers, replay_of_rehydrate,
}
use token_streaming.Marketplace.Supplier.Contexts.{assert_identifier-ok, IsContext, IsContext-of_ok}
use token_streaming.Marketplace.Supplier.Shown.{assert_identifier-str}
use token_streaming.Marketplace.Supplier.Readings.{GivesContext-of_ok}
use token_streaming.Marketplace.Supplier.Effects.{Command, run_command, Effect}
use token_streaming.Marketplace.Supplier.Emitted.{run_command-Emits}
use token_streaming.Marketplace.Supplier.Fresh.{
  IsFresh, text_same, Accepts-of_Emits, emitted_version, fresh_of_shape, extended,
}

registration_named :
    (js : Engine) (input : Value) (registration : RegistrationInput)
    → read_registration js input ≡ ok registration
    → is_identifier registration.supplier_id ≡ true
unfolding read_registration
registration_named js input registration h =
    let (id, a, h1) = >>=-eq-ok (assert_identifier (get js input (text "supplierId"))) _ h in
    let same : registration.supplier_id ≡ id = ground arith in rw same (assert_identifier-ok _ id a)

registration_given :
    (js : Engine) (input : Value) (registration : RegistrationInput)
    → read_registration js input ≡ ok registration
    → get js input (text "supplierId") ≡ str registration.supplier_id
unfolding read_registration
registration_given js input registration h =
    let (id, a, h1) = >>=-eq-ok (assert_identifier (get js input (text "supplierId"))) _ h in
    let same : id ≡ registration.supplier_id = ground arith in
    assert_identifier-str _ id a ∙ ap str same

-- The event of a registration.
abbrev registration_event : Context → RegistrationInput → SupplierEvent
registration_event context registration = record {
  envelope = record {
    schema_version = schema_version;
    event_id = context.event_id;
    tenant_id = context.tenant_id;
    actor_id = context.actor_id;
    causation_id = context.command_id;
    aggregate_type = text "supplier";
    aggregate_id = registration.supplier_id;
    aggregate_version = 1;
    occurred_at = context.occurred_at;
  };
  payload = SupplierPayload.registered registration;
}

-- What a history of this one event gives.
abbrev Begins : Engine → SupplierEvent → Type 0
Begins js e =
    (state : SupplierState) × (rehydrate_supplier js (e ∷ []) ≡ ok (some state))
    × (state.status ≡ SupplierStatus.pending_verification)
    × (state.version ≡ 1)
    × (state.verifications ≡ [])
    × (state.authorizations ≡ [])
    × (state.supplier_id ≡ e.aggregate_id)
    × (state.tenant_id ≡ e.tenant_id)
    × (state.updated_at ≡ e.occurred_at)

registered_state :
    (js : Engine) (context : Context) (registration : RegistrationInput) (at : ℕ)
    → IsContext js context at
    → is_identifier registration.supplier_id ≡ true
    → Begins js (registration_event context registration)
unfolding rehydrate_supplier created apply_supplier_event
registered_state js context registration at valid named =
    let event = registration_event context registration in
    let accepted : Accepts js start event at (created event registration) = record {
      own_envelope = rw ((text_beq_iff (text "supplier") (text "supplier")).1 refl) refl;
      identified = ok_of_identifiers event valid.event valid.tenant valid.actor valid.command named;
      version_safe = refl;
      timed = valid.timed;
      ordered = refl;
      fresh_event = refl;
      fresh_causation = refl;
      next_version = refl;
      right_start = refl;
      named = text_same registration.supplier_id registration.supplier_id refl;
      own = refl;
      applied = refl;
    } in
    let run =
      replay_one js start event (after start event at (created event registration))
        (replay_event-of_Accepts js start event at (created event registration) accepted) in
    (created event registration, rw run refl, refl, refl, refl, refl, refl, refl, refl)

-- A command that succeeds on the state of a history returns an event that the same history accepts
-- next, if its identifiers are new there and the version stays a safe integer; the new state has the
-- next version and the time of the event, keeps its identity, and differs as the command says: the
-- event carries the verification, the authorization or the codes that the input gives, field by field;
-- the verification takes the place of those of its kind, the authorization comes last, the one with the
-- given identifier is revoked, or the status is suspended or active, and verifications, authorizations
-- and status are otherwise as before.
pub run_command-rehydrate :
    (js : Engine) (events : List SupplierEvent) (before : SupplierState) (command : Command)
    (context_value : Value) (event : SupplierEvent)
    → rehydrate_supplier js events ≡ ok (some before)
    → run_command js before command context_value ≡ ok event
    → IsFresh event events
    → before.version + 1 ≤ max_safe
    → (state : SupplierState) × (rehydrate_supplier js (events ++ event ∷ []) ≡ ok (some state))
      × (state.version ≡ before.version + 1)
      × Continues before event state
      × Effect js command before event state
unfolding rehydrate_supplier
run_command-rehydrate js events before command context_value event h run fresh safe =
    let (last, replayed, here, fits) = replay_of_rehydrate js events (some before) h in
    let e = run_command-Emits js before command context_value event run in
    let (id, cause) = fresh_of_shape js before command event e events last replayed fresh in
    let accepted = Accepts-of_Emits js last before command event e here fits safe id cause in
    let emitted = supplier_event before e.context e.payload in
    let one =
      replay_one js last emitted (after last emitted e.at e.state)
        (replay_event-of_Accepts js last emitted e.at e.state accepted) in
    let all = replay_events-append js start last events (emitted ∷ []) replayed ∙ one in
    let continues = apply_to-Continues js before e.state emitted e.payload (e.applied) in
    (
      e.state,
      extended js events emitted event e.state (after last emitted e.at e.state) (sym (e.shape)) all
          refl,
      continues.new_version ∙ emitted_version before e.context e.payload,
      subst (λ x. Continues before x e.state) (sym (e.shape)) continues,
      subst (λ x. Effect js command before x e.state) (sym (e.shape)) e.effect,
    )

-- A registration that succeeds begins a history: its event alone gives a supplier of version 1 that
-- waits for verification, has no verification and no authorization, and has the identifier that the
-- input gives, and the tenant and the time that the context gives.
pub register_supplier-rehydrate :
    (js : Engine) (input context_value : Value) (event : SupplierEvent)
    → register_supplier js input context_value ≡ ok event
    → (state : SupplierState) × (rehydrate_supplier js (event ∷ []) ≡ ok (some state))
      × (state.status ≡ SupplierStatus.pending_verification)
      × (state.version ≡ 1)
      × (state.verifications ≡ [])
      × (state.authorizations ≡ [])
      × (state.supplier_id ≡ event.aggregate_id)
      × (state.tenant_id ≡ event.tenant_id)
      × (state.updated_at ≡ event.occurred_at)
      × (get js input (text "supplierId") ≡ str state.supplier_id)
      × (get js context_value (text "tenantId") ≡ str state.tenant_id)
      × (get js context_value (text "occurredAt") ≡ str state.updated_at)
unfolding register_supplier
register_supplier-rehydrate js input context_value event h =
    let (_, _, h1) = >>=-eq-ok (assert_safe_input js input) _ h in
    let (_, _, h2) = >>=-eq-ok (assert_exact_keys js input registration_keys) _ h1 in
    let (context, c, h3) = >>=-eq-ok (assert_context js context_value) _ h2 in
    let (registration, r, h4) = >>=-eq-ok (read_registration js input) _ h3 in
    let (at, valid) = IsContext-of_ok js context_value context c in
    let named = registration_named js input registration r in
    let (state, run, status, version, verifications, authorizations, id, tenant, updated) =
      subst (Begins js) (ok-injective h4)
        (registered_state js context registration at valid named) in
    let given = GivesContext-of_ok js context_value context c in
    let same = ok-injective h4 in
    let own_id : state.supplier_id ≡ registration.supplier_id =
      id ∙ ap (λ (e : SupplierEvent). e.aggregate_id) (sym same) in
    let own_tenant : state.tenant_id ≡ context.tenant_id =
      tenant ∙ ap (λ (e : SupplierEvent). e.tenant_id) (sym same) in
    let own_time : state.updated_at ≡ context.occurred_at =
      updated ∙ ap (λ (e : SupplierEvent). e.occurred_at) (sym same) in
    (
      state,
      run,
      status,
      version,
      verifications,
      authorizations,
      id,
      tenant,
      updated,
      registration_given js input registration r ∙ ap str (sym own_id),
      given.tenant ∙ ap str (sym own_tenant),
      given.occurred ∙ ap str (sym own_time),
    )

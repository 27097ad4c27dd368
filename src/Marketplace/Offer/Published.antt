-- ===== src/Marketplace/Offer/Published.antt =====
-- What a published offer promises (packages/marketplace-domain/src/capacity-offer.ts).
use token_streaming.Common.{
  ℕ, ◌≡◌, refl, sym, ◌∙◌, ap, subst, Bool, true, false, not, some, List, [], ◌∷◌, Memᴰ, ◌==◌,
  find-Memᴰ, arith, nat_eq,
}
use token_streaming.Common.Outcome.{ok, throw_if, >>=-eq-ok, throw_if-eq-ok, ok-injective}
use token_streaming.Js.{Engine, Value}
use token_streaming.Js.Texts.{Text, text, text_eq, text_beq_iff}
use token_streaming.Marketplace.Errors.{
  invalid_supplier_state, verification_incomplete, authorization_scope_mismatch,
}
use token_streaming.Marketplace.Protocol.{
  SupplierStatus, VerificationKind, SupplierState, Authorization, Context, OfferInput, OfferEvent,
  status_eq,
}
use token_streaming.Marketplace.Literals.{offer_keys}
use token_streaming.Marketplace.SafeInput.{assert_safe_input}
use token_streaming.Marketplace.Validation.{assert_exact_keys}
use token_streaming.Marketplace.Supplier.Rules.{
  is_authorization_active, missing_required_verification_kinds, find_authorization, is_empty,
}
use token_streaming.Marketplace.Supplier.Commands.{assert_state_context}
use token_streaming.Marketplace.Supplier.Contexts.{IsFor, IsFor-of_ok}
use token_streaming.Marketplace.Offer.{
  read_offer, assert_authorization_scope, exceeds_window, offer_event, publish_capacity_offer,
  rehydrate_capacity_offer,
}
use token_streaming.Marketplace.Offer.Scope.{IsInScope, IsInside, IsInside-of_test, authorized}

-- The supplier could sell, and the authorization that the offer names allows the offer.
pub record IsBacked (js : Engine) (supplier : SupplierState) (event : OfferEvent) : Type 0 where
  pub selling : supplier.status ≡ SupplierStatus.active
  pub verified : missing_required_verification_kinds js supplier event.occurred_at ≡ ok []
  pub authorization : Authorization
  pub held : Memᴰ authorization supplier.authorizations
  pub named : authorization.authorization_id ≡ event.payload.authorization_id
  pub active : is_authorization_active js event.occurred_at authorization ≡ ok true
  pub scope : IsInScope authorization event.payload.input
  pub inside : IsInside js event.payload.input authorization
  pub own_supplier : event.payload.supplier_id ≡ supplier.supplier_id
  pub own_source : event.payload.source_type ≡ authorization.source_type
  pub own_tenant : event.tenant_id ≡ supplier.tenant_id

published-IsBacked :
    (js : Engine) (supplier : SupplierState) (context : Context) (at : ℕ) (input : OfferInput)
    (authorization : Authorization)
    → IsFor js supplier context at
    → supplier.status ≡ SupplierStatus.active
    → missing_required_verification_kinds js supplier context.occurred_at ≡ ok []
    → find_authorization input.authorization_id supplier.authorizations ≡ some authorization
    → is_authorization_active js context.occurred_at authorization ≡ ok true
    → IsInScope authorization input
    → IsInside js input authorization
    → IsBacked js supplier (offer_event supplier context input authorization)
unfolding offer_event find_authorization
published-IsBacked js supplier context at input authorization for selling verified found active
      scope inside =
    let (held, named) =
      find-Memᴰ (λ (a : Authorization). a.authorization_id == input.authorization_id)
        supplier.authorizations authorization found in
    record {
      selling = selling;
      verified = verified;
      authorization = authorization;
      held = held;
      named = (text_beq_iff authorization.authorization_id input.authorization_id).0 named;
      active = active;
      scope = scope;
      inside = inside;
      own_supplier = refl;
      own_source = refl;
      own_tenant = sym (for.own_tenant);
    }

none_missing :
    (js : Engine) (supplier : SupplierState) (instant : Text) (missing : List VerificationKind)
    → missing_required_verification_kinds js supplier instant ≡ ok missing
    → not (is_empty missing) ≡ false
    → missing_required_verification_kinds js supplier instant ≡ ok []
none_missing js supplier instant [] h e = h
none_missing js supplier instant (k ∷ ks) h e = cc

status_active :
    (s : SupplierStatus) → not (s == SupplierStatus.active) ≡ false → s ≡ SupplierStatus.active
status_active s h = ground arith

not_outside :
    (js : Engine) (input : OfferInput) (a : Authorization) (b : Bool)
    → exceeds_window js input a ≡ ok b
    → b ≡ false
    → exceeds_window js input a ≡ ok false
not_outside js input a b h e = h ∙ ap ok e

published :
    (js : Engine) (supplier : SupplierState) (input_value context_value : Value)
    (event : OfferEvent)
    → publish_capacity_offer js supplier input_value context_value ≡ ok event
    → (context : Context) × (input : OfferInput) × (authorization : Authorization) × (offer_event
          supplier context input authorization
        ≡ event)
      × IsBacked js supplier (offer_event supplier context input authorization)
unfolding publish_capacity_offer
published js supplier input_value context_value event h =
    let (_, _, h1) = >>=-eq-ok (assert_safe_input js input_value) _ h in
    let (_, _, h2) = >>=-eq-ok (assert_exact_keys js input_value offer_keys) _ h1 in
    let (context, c, h3) = >>=-eq-ok (assert_state_context js supplier context_value) _ h2 in
    let (_, s, h4) =
      >>=-eq-ok (throw_if (not (supplier.status == SupplierStatus.active)) invalid_supplier_state) _
        h3 in
    let (missing, m, h5) =
      >>=-eq-ok (missing_required_verification_kinds js supplier context.occurred_at) _ h4 in
    let (_, e, h6) = >>=-eq-ok (throw_if (not (is_empty missing)) verification_incomplete) _ h5 in
    let (input, i, h7) = >>=-eq-ok (read_offer js context input_value) _ h6 in
    let (authorization, a, h8) =
      >>=-eq-ok
        (assert_authorization_scope js
          (find_authorization input.authorization_id supplier.authorizations) input
          context.occurred_at)
        _ h7 in
    let (outside, o, h9) = >>=-eq-ok (exceeds_window js input authorization) _ h8 in
    let (_, w, h10) = >>=-eq-ok (throw_if outside authorization_scope_mismatch) _ h9 in
    let (at, for) = IsFor-of_ok js supplier context_value context c in
    let (found, active, scope) = authorized js _ input context.occurred_at authorization a in
    let inside =
      IsInside-of_test js input authorization
        (not_outside js input authorization outside o (throw_if-eq-ok _ _ w)) in
    (
      context,
      input,
      authorization,
      ok-injective h10,
      published-IsBacked js supplier context at input authorization for
          (status_active supplier.status (throw_if-eq-ok _ _ s))
          (none_missing js supplier context.occurred_at missing m (throw_if-eq-ok _ _ e)) found
          active scope inside,
    )

-- An offer that is published is backed: the supplier is active and has every verification it needs,
-- and an authorization of the supplier has the identifier that the offer names, is active at the time
-- of the event, has the same provider, a pattern for the model, the region, every data class and each
-- of the four limits, and a window around the offer's; the offer's supplier, tenant and source type are
-- those of the supplier and of the authorization.
pub publish_capacity_offer-IsBacked :
    (js : Engine) (supplier : SupplierState) (input_value context_value : Value)
    (event : OfferEvent)
    → publish_capacity_offer js supplier input_value context_value ≡ ok event
    → IsBacked js supplier event
publish_capacity_offer-IsBacked js supplier input_value context_value event h =
    let (_, _, _, same, backed) = published js supplier input_value context_value event h in
    subst (IsBacked js supplier) same backed

-- What a history of this one event gives.
abbrev IsKept : OfferEvent → Type 0
IsKept event =
    rehydrate_capacity_offer (event ∷ [])
    ≡ ok (
        some (record {
          offer = event.payload;
          tenant_id = event.tenant_id;
          version = 1;
          published_at = event.occurred_at;
        }))

offer_event-IsKept :
    (supplier : SupplierState) (context : Context) (input : OfferInput)
    (authorization : Authorization)
    → IsKept (offer_event supplier context input authorization)
unfolding offer_event rehydrate_capacity_offer
offer_event-IsKept supplier context input authorization =
    rw
      (
        (text_beq_iff (text "capacity-offer") (text "capacity-offer")).1 refl,
        (text_beq_iff input.offer_id input.offer_id).1 refl,
      )
      refl

-- A published offer is a history: `rehydrateCapacityOffer` of its event alone gives back the payload,
-- the tenant and the time, with version 1.
pub publish_capacity_offer-rehydrate :
    (js : Engine) (supplier : SupplierState) (input_value context_value : Value)
    (event : OfferEvent)
    → publish_capacity_offer js supplier input_value context_value ≡ ok event
    → rehydrate_capacity_offer (event ∷ [])
      ≡ ok (
          some (record {
            offer = event.payload;
            tenant_id = event.tenant_id;
            version = 1;
            published_at = event.occurred_at;
          }))
publish_capacity_offer-rehydrate js supplier input_value context_value event h =
    let (context, input, authorization, same, _) =
      published js supplier input_value context_value event h in
    subst IsKept same (offer_event-IsKept supplier context input authorization)

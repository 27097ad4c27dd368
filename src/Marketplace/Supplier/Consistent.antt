-- ===== src/Marketplace/Supplier/Consistent.antt =====
-- What every replayed supplier state satisfies beside the fields themselves: its identity is that of
-- its events, and its times are those of the history (packages/marketplace-domain/src/supplier.ts).
use token_streaming.Common.{
  sym, subst, ℕ, ◌≡◌, refl, true, false, not, Option, none, some, List, arith,
}
use token_streaming.Common.Outcome.{ok, >>=-eq-ok, throw_if-eq-ok}
use token_streaming.Js.{Engine}
use token_streaming.Js.Texts.{Text, text_eq, text_beq_iff}
use token_streaming.Marketplace.Errors.{invalid_event_history}
use token_streaming.Marketplace.Protocol.{
  SupplierEvent, SupplierState, SupplierPayload, registered, verification_recorded,
  authorization_recorded, authorization_revoked, activated, suspended, unsupported,
}
use token_streaming.Marketplace.Validation.{timestamp_of, is_identifier}
use token_streaming.Marketplace.Supplier.History.{
  Replay, is_misnamed, assert_history_identifier, assert_envelope_identifiers, advance, created,
  apply_to, apply_first, apply_supplier_event, start, replay_events, rehydrate_supplier,
}
use token_streaming.Marketplace.Supplier.Accepts.{replay_events-keeps}

identifier_of_ok :
    (s : Text) {u : Unit {0}} → assert_history_identifier s ≡ ok u → is_identifier s ≡ true
unfolding assert_history_identifier
identifier_of_ok s h =
    ground (arith, throw_if-eq-ok (not (is_identifier s)) invalid_event_history h)

pub ok_of_identifiers :
    (event : SupplierEvent)
    → is_identifier event.event_id ≡ true
    → is_identifier event.tenant_id ≡ true
    → is_identifier event.actor_id ≡ true
    → is_identifier event.causation_id ≡ true
    → is_identifier event.aggregate_id ≡ true
    → assert_envelope_identifiers event ≡ ok tt
unfolding assert_envelope_identifiers assert_history_identifier
ok_of_identifiers event a b c d e = rw (a, b, c, d, e) refl

pub aggregate_id_of_ok :
    (event : SupplierEvent)
    → assert_envelope_identifiers event ≡ ok tt
    → is_identifier event.aggregate_id ≡ true
unfolding assert_envelope_identifiers
aggregate_id_of_ok event h =
    let (_, _, h1) = >>=-eq-ok (assert_history_identifier event.event_id) _ h in
    let (_, _, h2) = >>=-eq-ok (assert_history_identifier event.tenant_id) _ h1 in
    let (_, _, h3) = >>=-eq-ok (assert_history_identifier event.actor_id) _ h2 in
    let (_, _, h4) = >>=-eq-ok (assert_history_identifier event.causation_id) _ h3 in
    identifier_of_ok event.aggregate_id h4

-- What no later event changes, and what every event sets.
pub record Continues (before : SupplierState) (event : SupplierEvent) (state : SupplierState)
    : Type 0 where
  pub same_id : state.supplier_id ≡ before.supplier_id
  pub same_tenant : state.tenant_id ≡ before.tenant_id
  pub same_kind : state.kind ≡ before.kind
  pub same_creation : state.created_at ≡ before.created_at
  pub new_time : state.updated_at ≡ event.occurred_at
  pub new_version : state.version ≡ event.aggregate_version

pub apply_to-Continues :
    (js : Engine) (before state : SupplierState) (event : SupplierEvent) (payload : SupplierPayload)
    → apply_to js before event payload ≡ ok state
    → Continues before event state
unfolding apply_to advance
apply_to-Continues js before state event (registered input) h = cc
apply_to-Continues js before state event (verification_recorded input) h = ground arith
apply_to-Continues js before state event (authorization_recorded input) h = ground arith
apply_to-Continues js before state event (authorization_revoked id reason) h = ground arith
apply_to-Continues js before state event (activated at) h = ground arith
apply_to-Continues js before state event (suspended reason) h = ground arith
apply_to-Continues js before state event unsupported h = cc

pub created-fields :
    (event : SupplierEvent) (payload : SupplierPayload) (state : SupplierState)
    → apply_first event payload ≡ ok state
    → is_misnamed event.aggregate_id payload ≡ false
    → (state.supplier_id ≡ event.aggregate_id)
      × (state.updated_at ≡ event.occurred_at)
      × (state.version ≡ event.aggregate_version)
      × (state.tenant_id ≡ event.tenant_id)
unfolding created
created-fields event (registered input) state h named =
    let same = (text_beq_iff event.aggregate_id input.supplier_id).0 in ground (arith, same)
created-fields event _ state h named = cc

-- The loop variable `previousOccurredAt` is the time of the last update.
abbrev pub Fits : Engine → Option ℕ → Option SupplierState → Type 0
Fits js previous none = previous ≡ none
Fits js previous (some state) =
    (is_identifier state.supplier_id ≡ true) × (previous ≡ timestamp_of js state.updated_at)

Fits-after :
    (js : Engine) (before : Option SupplierState) (previous : Option ℕ) (event : SupplierEvent)
    (at : ℕ) (state : SupplierState)
    → Fits js previous before
    → assert_envelope_identifiers event ≡ ok tt
    → timestamp_of js event.occurred_at ≡ some at
    → is_misnamed event.aggregate_id event.payload ≡ false
    → apply_supplier_event js before event ≡ ok state
    → Fits js (some at) (some state)
unfolding apply_supplier_event
Fits-after js none previous event at state fits identified timed named h =
    let (id, time, _, _) = created-fields event event.payload state h named in
    (rw id (aggregate_id_of_ok event identified), rw time (sym timed))
Fits-after js (some before) previous event at state fits identified timed named h =
    let c = apply_to-Continues js before state event event.payload h in
    (rw (c.same_id) (fits.0), rw (c.new_time) (sym timed))

abbrev pub FitsReplay : Engine → Replay → Type 0
FitsReplay js replay = Fits js replay.previous replay.state

replay_events-Fits :
    (js : Engine) (last : Replay) (events : List SupplierEvent)
    → replay_events js start events ≡ ok last
    → FitsReplay js last
replay_events-Fits js last events h =
    replay_events-keeps js (FitsReplay js)
      (λ replay event at state fits a.
        Fits-after js replay.state replay.previous event at state fits a.identified a.timed a.named
          a.applied)
      start last events refl h

-- A history that gives a state, with the loop variables at its end.
pub replay_of_rehydrate :
    (js : Engine) (events : List SupplierEvent) (found : Option SupplierState)
    → rehydrate_supplier js events ≡ ok found
    → (last : Replay) × (replay_events js start events ≡ ok last)
      × (last.state ≡ found)
      × Fits js last.previous found
unfolding rehydrate_supplier
replay_of_rehydrate js events found h =
    let (last, run, h') = >>=-eq-ok (replay_events js start events) _ h in
    let same : last.state ≡ found = cc in
    (last, run, same, subst (Fits js last.previous) same (replay_events-Fits js last events run))

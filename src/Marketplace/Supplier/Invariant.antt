-- ===== src/Marketplace/Supplier/Invariant.antt =====
-- The invariant of supplier states (packages/marketplace-domain/src/supplier.ts).
use token_streaming.Common.{
  sym, subst, ap, ◌∙◌, ◌+◌, ◌≡◌, refl, ◌≢◌, Option, none, some, List, [], ◌∷◌, ◌++◌, length,
  length-append, arith,
}
use token_streaming.Common.Outcome.{ok, throw_if, >>=-eq-ok, throw_if-eq-ok, ok-injective}
use token_streaming.Js.{Engine}
use token_streaming.Js.Texts.{text_eq}
use token_streaming.Marketplace.Errors.{invalid_event_history}
use token_streaming.Marketplace.Protocol.{
  SupplierStatus, SupplierPayload, registered, verification_recorded, authorization_recorded,
  authorization_revoked, activated, suspended, unsupported, SupplierEvent, SupplierState, kind_eq,
}
use token_streaming.Marketplace.Supplier.Rules.{
  is_closed, is_reused, find_authorization, is_irrevocable,
}
use token_streaming.Marketplace.Supplier.Applied.{holds, IsReady-of_applied}
use token_streaming.Marketplace.Supplier.Consistent.{apply_to-Continues, replay_of_rehydrate}
use token_streaming.Marketplace.Supplier.Induction.{history_induction}
use token_streaming.Marketplace.Supplier.History.{
  apply_first, Replay, version_of, created, advance, apply_to, apply_supplier_event,
  rehydrate_supplier,
}
use token_streaming.Marketplace.Supplier.Distinct.{
  HasDistinctIds, HasDistinctKinds, HasDistinctIds-append, HasDistinctIds-revoke, reuses_of,
  HasDistinctKinds-with,
}

-- What holds of every state of a history.
pub record IsSound (state : SupplierState) : Type 0 where
  pub distinct_ids : HasDistinctIds state.authorizations
  pub distinct_kinds : HasDistinctKinds state.verifications
  pub never_rejected : state.status ≢ SupplierStatus.rejected

apply_to-IsSound :
    (js : Engine) (before state : SupplierState) (event : SupplierEvent) (payload : SupplierPayload)
    → IsSound before
    → apply_to js before event payload ≡ ok state
    → IsSound state
unfolding apply_to advance
apply_to-IsSound js before state event (registered input) sound h = cc
apply_to-IsSound js before state event (verification_recorded input) sound h =
    let (_, _, h1) = >>=-eq-ok (throw_if (is_closed before.status) invalid_event_history) _ h in
    let (_, r, h2) = >>=-eq-ok (throw_if (is_reused before input) invalid_event_history) _ h1 in
    let unused = reuses_of before input (throw_if-eq-ok _ invalid_event_history r) in
    subst IsSound (ok-injective h2) (record {
      distinct_ids = sound.distinct_ids;
      distinct_kinds = HasDistinctKinds-with input before.verifications sound.distinct_kinds unused;
      never_rejected = sound.never_rejected;
    })
apply_to-IsSound js before state event (authorization_recorded input) sound h =
    let (_, _, h1) = >>=-eq-ok (throw_if (is_closed before.status) invalid_event_history) _ h in
    let (_, r, h2) =
      >>=-eq-ok
        (throw_if (holds input.authorization_id before.authorizations) invalid_event_history) _
        h1 in
    let unused =
      throw_if-eq-ok (holds input.authorization_id before.authorizations) invalid_event_history r in
    subst IsSound (ok-injective h2) (record {
      distinct_ids = HasDistinctIds-append before.authorizations input sound.distinct_ids unused;
      distinct_kinds = sound.distinct_kinds;
      never_rejected = sound.never_rejected;
    })
apply_to-IsSound js before state event (authorization_revoked id reason) sound h =
    let gone = is_irrevocable (find_authorization id before.authorizations) in
    let (_, _, h1) = >>=-eq-ok (throw_if gone invalid_event_history) _ h in
    subst IsSound (ok-injective h1) (record {
      distinct_ids = HasDistinctIds-revoke id before.authorizations sound.distinct_ids;
      distinct_kinds = sound.distinct_kinds;
      never_rejected = sound.never_rejected;
    })
apply_to-IsSound js before state event (activated at) sound h =
    let (_, _, same) = IsReady-of_applied js before state event at h in
    subst IsSound same (record {
      distinct_ids = sound.distinct_ids;
      distinct_kinds = sound.distinct_kinds;
      never_rejected = λ e. cc e;
    })
apply_to-IsSound js before state event (suspended reason) sound h =
    let (_, _, h1) = >>=-eq-ok (throw_if (is_closed before.status) invalid_event_history) _ h in
    subst IsSound (ok-injective h1) (record {
      distinct_ids = sound.distinct_ids;
      distinct_kinds = sound.distinct_kinds;
      never_rejected = ground arith;
    })
apply_to-IsSound js before state event unsupported sound h = cc

created-IsSound :
    (js : Engine) (event : SupplierEvent) (payload : SupplierPayload) (state : SupplierState)
    → apply_first event payload ≡ ok state
    → IsSound state
unfolding created
created-IsSound js event (registered input) state h =
    subst IsSound (ok-injective h)
      (record { distinct_ids = tt; distinct_kinds = tt; never_rejected = λ e. cc e })
created-IsSound js event _ state h = cc

-- The invariant of the loop: the state is sound, and its version counts the events.
abbrev IsSoundAfter : List SupplierEvent → Option SupplierState → Type 0
IsSoundAfter events none = events ≡ []
IsSoundAfter events (some state) = IsSound state × (state.version ≡ length events)

version_of_sound :
    (events : List SupplierEvent) (o : Option SupplierState)
    → IsSoundAfter events o
    → version_of o ≡ length events
version_of_sound events none h = rw h refl
version_of_sound events (some state) h = h.1

applied-IsSound :
    (js : Engine) (o : Option SupplierState) (events : List SupplierEvent) (event : SupplierEvent)
    (state : SupplierState)
    → IsSoundAfter events o
    → apply_supplier_event js o event ≡ ok state
    → IsSound state
unfolding apply_supplier_event
applied-IsSound js none events event state s h = created-IsSound js event event.payload state h
applied-IsSound js (some before) events event state s h =
    apply_to-IsSound js before state event event.payload s.0 h

first_version :
    (event : SupplierEvent) (payload : SupplierPayload) (state : SupplierState)
    → apply_first event payload ≡ ok state
    → state.version ≡ event.aggregate_version
unfolding created
first_version event (registered input) state h =
    ap (λ (s : SupplierState). s.version) (sym (ok-injective h))
first_version event _ state h = cc

counted :
    (events : List SupplierEvent) (event : SupplierEvent) (o : Option SupplierState)
    → IsSoundAfter events o
    → version_of o + 1 ≡ length (events ++ event ∷ [])
counted events event o h =
    omega (arith, version_of_sound events o h, length-append events (event ∷ []))

applied-version :
    (js : Engine) (o : Option SupplierState) (event : SupplierEvent) (state : SupplierState)
    → apply_supplier_event js o event ≡ ok state
    → state.version ≡ event.aggregate_version
unfolding apply_supplier_event
applied-version js none event state h = first_version event event.payload state h
applied-version js (some before) event state h =
    (apply_to-Continues js before state event event.payload h).new_version

-- Every state that a history gives: no two authorizations share an identifier, no two verifications
-- share a kind or an identifier, the status is never `rejected`, and the version is the number of
-- events.
pub rehydrate_supplier-IsSound :
    (js : Engine) (events : List SupplierEvent) (state : SupplierState)
    → rehydrate_supplier js events ≡ ok (some state)
    → IsSound state × (state.version ≡ length events)
rehydrate_supplier-IsSound js events state h =
    let (last, run, here, _) = replay_of_rehydrate js events (some state) h in
    let all =
      history_induction js (λ es (r : Replay). IsSoundAfter es r.state)
        (λ es r e at s _ sound a. (
          applied-IsSound js r.state es e s sound a.applied,
          applied-version js r.state e s a.applied ∙ a.next_version ∙ counted es e r.state sound,
        ))
        events last refl run in
    subst (IsSoundAfter events) here all

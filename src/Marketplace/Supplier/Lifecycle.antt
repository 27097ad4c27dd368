-- ===== src/Marketplace/Supplier/Lifecycle.antt =====
-- The states of a supplier over its history (packages/marketplace-domain/src/supplier.ts).
use mathlib.Core.List.{append_assoc}
use token_streaming.Common.{
  ℕ, subst, ap, ◌∙◌, ◌≡◌, refl, Option, none, some, List, [], ◌∷◌, ◌++◌, arith, ◌⊎◌, inl, inr,
}
use token_streaming.Common.Outcome.{ok}
use token_streaming.Js.{Engine}
use token_streaming.Js.Texts.{text_eq}
use token_streaming.Marketplace.Protocol.{
  SupplierStatus, SupplierPayload, registered, verification_recorded, authorization_recorded,
  authorization_revoked, activated, suspended, unsupported, SupplierEvent, SupplierState,
}
use token_streaming.Marketplace.Validation.{timestamp_of}
use token_streaming.Marketplace.Supplier.Ready.{MayStart, MayStart-of_IsReady}
use token_streaming.Marketplace.Supplier.Applied.{IsReady, IsReady-of_applied}
use token_streaming.Marketplace.Supplier.History.{
  Replay, start, created, advance, apply_first, apply_to, apply_supplier_event, replay_events,
  rehydrate_supplier,
}
use token_streaming.Marketplace.Supplier.Consistent.{replay_of_rehydrate}
use token_streaming.Marketplace.Supplier.Induction.{history_induction}

-- A history with an activation, made when the supplier was ready for it.
pub record Activation (js : Engine) (events : List SupplierEvent) : Type 0 where
  pub earlier : List SupplierEvent
  pub event : SupplierEvent
  pub later : List SupplierEvent
  pub found : SupplierState
  pub split : events ≡ earlier ++ event ∷ later
  pub activation : event.payload ≡ SupplierPayload.activated event.occurred_at
  pub known : rehydrate_supplier js earlier ≡ ok (some found)
  pub ready : MayStart js found event.occurred_at

Activation-append :
    (js : Engine) (events : List SupplierEvent) (more : List SupplierEvent)
    → Activation js events
    → Activation js (events ++ more)
Activation-append js events more a = record {
  earlier = a.earlier;
  event = a.event;
  later = a.later ++ more;
  found = a.found;
  split = ap (λ l. l ++ more) (a.split) ∙ append_assoc a.earlier (a.event ∷ a.later) more;
  activation = a.activation;
  known = a.known;
  ready = a.ready;
}

-- An event makes a supplier active, or finds it so.
active_after :
    (js : Engine) (before state : SupplierState) (event : SupplierEvent) (payload : SupplierPayload)
    → apply_to js before event payload ≡ ok state
    → state.status ≡ SupplierStatus.active
    → (before.status ≡ SupplierStatus.active)
      ⊎ ((payload ≡ SupplierPayload.activated event.occurred_at)
          × IsReady js before event.occurred_at)
unfolding apply_to advance
active_after js before state event (registered input) h e = cc
active_after js before state event (verification_recorded input) h e = inl (ground arith)
active_after js before state event (authorization_recorded input) h e = inl (ground arith)
active_after js before state event (authorization_revoked id reason) h e = inl (ground arith)
active_after js before state event (activated at) h e =
    let (ready, now, _) = IsReady-of_applied js before state event at h in
    inr (ap SupplierPayload.activated now, ready)
active_after js before state event (suspended reason) h e = absurd (ground arith)
active_after js before state event unsupported h e = cc

abbrev WasActivated : Engine → List SupplierEvent → Option SupplierState → Type 0
WasActivated js events none = Unit
WasActivated js events (some state) = state.status ≡ SupplierStatus.active → Activation js events

rehydrated :
    (js : Engine) (events : List SupplierEvent) (replay : Replay) (state : SupplierState)
    → replay_events js start events ≡ ok replay
    → replay.state ≡ some state
    → rehydrate_supplier js events ≡ ok (some state)
unfolding rehydrate_supplier
rehydrated js events replay state run here = rw run (ap ok here)

first_inactive :
    (event : SupplierEvent) (payload : SupplierPayload) (state : SupplierState)
    → apply_first event payload ≡ ok state
    → state.status ≡ SupplierStatus.active
    → ⊥
unfolding created
first_inactive event (registered input) state h e = ground arith
first_inactive event _ state h e = cc

step-WasActivated :
    (js : Engine) (events : List SupplierEvent) (o : Option SupplierState) (event : SupplierEvent)
    (state : SupplierState) (at : ℕ)
    → timestamp_of js event.occurred_at ≡ some at
    → ((s : SupplierState) → o ≡ some s → rehydrate_supplier js events ≡ ok (some s))
    → WasActivated js events o
    → apply_supplier_event js o event ≡ ok state
    → WasActivated js (events ++ event ∷ []) (some state)
unfolding apply_supplier_event
step-WasActivated js events none event state at timed known w h e =
    absurd (first_inactive event event.payload state h e)
step-WasActivated js events (some before) event state at timed known w h e =
    elim (active_after js before state event event.payload h e) [
      | inl active ↦ Activation-append js events (event ∷ []) (w active)
      | inr (activation, ready) ↦ record {
        earlier = events;
        event = event;
        later = [];
        found = before;
        activation = activation;
        split = refl;
        known = known before refl;
        ready = MayStart-of_IsReady js event.occurred_at at timed before ready;
      }
    ]

-- A supplier is active only if its history holds an activation event, with its own time, and the
-- history before that gives a supplier that waits for verification and has, at that time, for each
-- kind that its own kind needs a verification that passed and is not expired, and an authorization
-- that is active and in its window: an individual needs identity, tax and payout, an organization
-- business, beneficial ownership, tax and payout.
pub active_was_ready :
    (js : Engine) (events : List SupplierEvent) (state : SupplierState)
    → rehydrate_supplier js events ≡ ok (some state)
    → state.status ≡ SupplierStatus.active
    → Activation js events
active_was_ready js events state h active =
    let (last, run, here, _) = replay_of_rehydrate js events (some state) h in
    let all =
      history_induction js (λ es (r : Replay). WasActivated js es r.state)
        (λ es r e at s so_far w a.
          step-WasActivated js es r.state e s at a.timed
            (λ x here'. rehydrated js es r x so_far here') w a.applied)
        events last tt run in
    subst (WasActivated js events) here all active

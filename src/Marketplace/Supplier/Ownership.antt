-- ===== src/Marketplace/Supplier/Ownership.antt =====
-- To whom the events of a history belong, and in what order they stand
-- (packages/marketplace-domain/src/supplier.ts).
use token_streaming.Common.{
  sym, subst, ◌∙◌, ◌≡◌, refl, false, not, ◌||◌, Option, none, some, List, [], ◌∷◌, ◌++◌, All,
  All-append, ◌==◌, arith,
}
use token_streaming.Common.Outcome.{ok}
use token_streaming.Js.{Engine}
use token_streaming.Js.Texts.{Text, text_eq, text_beq_iff}
use token_streaming.Marketplace.Protocol.{SupplierEvent, SupplierState}
use token_streaming.Marketplace.Supplier.History.{
  Replay, is_foreign, is_misnamed, apply_supplier_event, rehydrate_supplier,
}
use token_streaming.Marketplace.Supplier.Consistent.{
  apply_to-Continues, created-fields, replay_of_rehydrate,
}
use token_streaming.Marketplace.Supplier.Induction.{history_induction}

-- An event of this supplier and tenant.
abbrev pub IsOf : SupplierState → SupplierEvent → Type 0
IsOf state event = (event.aggregate_id ≡ state.supplier_id) × (event.tenant_id ≡ state.tenant_id)

abbrev OwnsAll : List SupplierEvent → Option SupplierState → Type 0
OwnsAll events none = events ≡ []
OwnsAll events (some state) = All (IsOf state) events

IsOf-moved :
    (before state : SupplierState) (events : List SupplierEvent)
    → state.supplier_id ≡ before.supplier_id
    → state.tenant_id ≡ before.tenant_id
    → All (IsOf before) events
    → All (IsOf state) events
IsOf-moved before state [] id tenant h = tt
IsOf-moved before state (event ∷ events) id tenant (h, all) =
    ((h.0 ∙ sym id, h.1 ∙ sym tenant), IsOf-moved before state events id tenant all)

own_texts : (a b c d : Text) → (not (a == b) || not (c == d)) ≡ false → (a ≡ b) × (c ≡ d)
own_texts a b c d h = ground (arith, text_beq_iff a b, text_beq_iff c d)

step-OwnsAll :
    (js : Engine) (events : List SupplierEvent) (o : Option SupplierState) (event : SupplierEvent)
    (state : SupplierState)
    → OwnsAll events o
    → is_foreign event o ≡ false
    → is_misnamed event.aggregate_id event.payload ≡ false
    → apply_supplier_event js o event ≡ ok state
    → All (IsOf state) (events ++ event ∷ [])
unfolding apply_supplier_event
step-OwnsAll js events none event state owns own named h =
    let (id, _, _, tenant) = created-fields event event.payload state h named in
    rw owns ((sym id, sym tenant), tt)
step-OwnsAll js events (some before) event state owns own named h =
    let c = apply_to-Continues js before state event event.payload h in
    let (id, tenant) =
      own_texts event.aggregate_id before.supplier_id event.tenant_id before.tenant_id own in
    All-append (IsOf state) events (event ∷ [])
      (IsOf-moved before state events (c.same_id) (c.same_tenant) owns)
      ((id ∙ sym (c.same_id), tenant ∙ sym (c.same_tenant)), tt)

-- A history never crosses a tenant or an aggregate: every event of it carries the identifier and the
-- tenant of the state that it gives.
pub rehydrate_supplier-IsOf :
    (js : Engine) (events : List SupplierEvent) (state : SupplierState)
    → rehydrate_supplier js events ≡ ok (some state)
    → All (IsOf state) events
rehydrate_supplier-IsOf js events state h =
    let (last, run, here, _) = replay_of_rehydrate js events (some state) h in
    let all =
      history_induction js (λ es (r : Replay). OwnsAll es r.state)
        (λ es r e at s _ owns a. step-OwnsAll js es r.state e s owns a.own a.named a.applied) events
        last refl run in
    subst (OwnsAll events) here all

-- ===== src/Marketplace/Supplier/Suspension.antt =====
-- A suspended supplier (packages/marketplace-domain/src/supplier.ts).
use token_streaming.Common.{
  sym, subst, ◌∙◌, ◌≡◌, refl, Option, none, some, List, [], ◌∷◌, ◌++◌, map, ◌==◌, arith, ◌⊎◌, inl,
  inr, Bool-cases,
}
use token_streaming.Common.Outcome.{ok, throw_if, >>=-eq-ok, ok-injective}
use token_streaming.Js.{Engine}
use token_streaming.Js.Texts.{Text, text_eq}
use token_streaming.Marketplace.Errors.{invalid_event_history}
use token_streaming.Marketplace.Protocol.{
  SupplierStatus, AuthorizationStatus, Authorization, SupplierPayload, registered,
  verification_recorded, authorization_recorded, authorization_revoked, activated, suspended,
  unsupported, SupplierEvent, SupplierState,
}
use token_streaming.Marketplace.Supplier.Rules.{find_authorization, is_irrevocable}
use token_streaming.Marketplace.Supplier.History.{
  Replay, start, advance, revoke, apply_to, apply_supplier_event, rehydrate_supplier,
}
use token_streaming.Marketplace.Supplier.Accepts.{replay_events-keeps, replay_events-append}
use token_streaming.Marketplace.Supplier.Consistent.{replay_of_rehydrate}

-- Each authorization is as it was, or it is revoked.
abbrev pub OnlyRevoked : List Authorization → List Authorization → Type 0
OnlyRevoked [] [] = Unit
OnlyRevoked [] (b ∷ bs) = ⊥
OnlyRevoked (a ∷ rest) [] = ⊥
OnlyRevoked (a ∷ rest) (b ∷ bs) =
    ((b ≡ a) ⊎ (b ≡ record a { status = AuthorizationStatus.revoked })) × OnlyRevoked rest bs

OnlyRevoked-refl : (l : List Authorization) → OnlyRevoked l l
OnlyRevoked-refl [] = tt
OnlyRevoked-refl (a ∷ l) = (inl refl, OnlyRevoked-refl l)

revoke-cases :
    (id : Text) (a : Authorization)
    → (revoke id a ≡ a) ⊎ (revoke id a ≡ record a { status = AuthorizationStatus.revoked })
unfolding revoke
revoke-cases id a = elim (Bool-cases (a.authorization_id == id)) [
  | inl same ↦ inr (rw same refl)
  | inr other ↦ inl (rw other refl)
]

revoke_twice :
    (id : Text) (a b : Authorization)
    → (b ≡ a) ⊎ (b ≡ record a { status = AuthorizationStatus.revoked })
    → (revoke id b ≡ a) ⊎ (revoke id b ≡ record a { status = AuthorizationStatus.revoked })
unfolding revoke
revoke_twice id a b (inl e) = rw e (revoke-cases id a)
revoke_twice id a b (inr e) = inr (rw e (ground arith))

OnlyRevoked-revoke :
    (id : Text) (l m : List Authorization) → OnlyRevoked l m → OnlyRevoked l (map (revoke id) m)
OnlyRevoked-revoke id [] [] h = tt
OnlyRevoked-revoke id [] (b ∷ m) h = elim h [ ]
OnlyRevoked-revoke id (a ∷ l) [] h = elim h [ ]
OnlyRevoked-revoke id (a ∷ l) (b ∷ m) (here, h) =
    (revoke_twice id a b here, OnlyRevoked-revoke id l m h)

-- What stays of a suspended supplier.
pub record IsFrozen (before state : SupplierState) : Type 0 where
  pub suspended_still : state.status ≡ SupplierStatus.suspended
  pub same_verifications : state.verifications ≡ before.verifications
  pub only_revoked : OnlyRevoked before.authorizations state.authorizations

module _ (js : Engine) (origin : SupplierState) where
  apply_to-IsFrozen :
      (before state : SupplierState) (event : SupplierEvent) (payload : SupplierPayload)
      → IsFrozen origin before
      → apply_to js before event payload ≡ ok state
      → IsFrozen origin state
  unfolding apply_to advance
  apply_to-IsFrozen before state event (registered input) f h = cc
  apply_to-IsFrozen before state event (verification_recorded input) f h =
      let e = f.suspended_still in absurd (ground arith)
  apply_to-IsFrozen before state event (authorization_recorded input) f h =
      let e = f.suspended_still in absurd (ground arith)
  apply_to-IsFrozen before state event (authorization_revoked id reason) f h =
      let gone = is_irrevocable (find_authorization id before.authorizations) in
      let (_, _, h1) = >>=-eq-ok (throw_if gone invalid_event_history) _ h in
      subst (IsFrozen origin) (ok-injective h1) (record {
        suspended_still = f.suspended_still;
        same_verifications = f.same_verifications;
        only_revoked =
            OnlyRevoked-revoke id origin.authorizations before.authorizations (f.only_revoked);
      })
  apply_to-IsFrozen before state event (activated at) f h =
      let e = f.suspended_still in absurd (ground arith)
  apply_to-IsFrozen before state event (suspended reason) f h =
      let e = f.suspended_still in absurd (ground arith)
  apply_to-IsFrozen before state event unsupported f h = cc

  abbrev IsFrozenAfter : Option SupplierState → Type 0
  IsFrozenAfter none = ⊥
  IsFrozenAfter (some state) = IsFrozen origin state

  step-IsFrozen :
      (o : Option SupplierState) (event : SupplierEvent) (state : SupplierState)
      → IsFrozenAfter o
      → apply_supplier_event js o event ≡ ok state
      → IsFrozen origin state
  unfolding apply_supplier_event
  step-IsFrozen none event state f h = elim f [ ]
  step-IsFrozen (some before) event state f h =
      apply_to-IsFrozen before state event event.payload f h

-- Suspension is final: whatever a history that suspends a supplier is extended by, the supplier
-- stays suspended, its verifications stay, and its authorizations change only by revocation.
pub suspended_is_final :
    (js : Engine) (events more : List SupplierEvent) (before state : SupplierState)
    → rehydrate_supplier js events ≡ ok (some before)
    → before.status ≡ SupplierStatus.suspended
    → rehydrate_supplier js (events ++ more) ≡ ok (some state)
    → IsFrozen before state
suspended_is_final js events more before state h closed h' =
    let (middle, run, here, _) = replay_of_rehydrate js events (some before) h in
    let (last, run', here', _) = replay_of_rehydrate js (events ++ more) (some state) h' in
    let begun : IsFrozen before before = record {
      suspended_still = closed;
      same_verifications = refl;
      only_revoked = OnlyRevoked-refl before.authorizations;
    } in
    let rest = sym (replay_events-append js start middle events more run) ∙ run' in
    let kept =
      replay_events-keeps js (λ (r : Replay). IsFrozenAfter js before r.state)
        (λ r e at s f a. step-IsFrozen js before r.state e s f a.applied) middle last more
        (subst (IsFrozenAfter js before) (sym here) begun) rest in
    subst (IsFrozenAfter js before) here' kept

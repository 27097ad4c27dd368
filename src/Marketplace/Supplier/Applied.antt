-- ===== src/Marketplace/Supplier/Applied.antt =====
-- `applySupplierEvent` where its tests pass (packages/marketplace-domain/src/supplier.ts).
use token_streaming.Common.{
  ap, ◌∙◌, ◌≡◌, refl, Bool, true, false, not, ◌||◌, List, [], ◌∷◌, ◌++◌, map, any, ◌==◌, arith,
}
use token_streaming.Common.Outcome.{ok, throw_if, >>=-eq-ok, throw_if-eq-ok, ok-injective}
use token_streaming.Js.{Engine}
use token_streaming.Js.Texts.{Text, text_eq, text_beq_iff}
use token_streaming.Marketplace.Errors.{invalid_event_history}
use token_streaming.Marketplace.Protocol.{
  SupplierStatus, VerificationKind, Verification, Authorization, SupplierPayload, SupplierEvent,
  SupplierState, status_eq,
}
use token_streaming.Marketplace.Supplier.Rules.{
  is_closed, is_reused, find_authorization, is_irrevocable, is_empty,
  missing_required_verification_kinds, has_active_authorization,
}
use token_streaming.Marketplace.Supplier.History.{advance, with_verification, revoke, apply_to}

abbrev pub holds : Text → List Authorization → Bool
holds id authorizations = any (λ (a : Authorization). a.authorization_id == id) authorizations

pub true_of_not : (b : Bool) → not b ≡ false → b ≡ true
true_of_not b h = ground arith

both_true : (a b : Bool) → (not a || not b) ≡ false → (a ≡ true) × (b ≡ true)
both_true a b h = ground arith

module _ (js : Engine) (before : SupplierState) (event : SupplierEvent) where
  abbrev pub verified_state : Verification → SupplierState
  verified_state v = record (advance before event) {
    verifications = with_verification v before.verifications;
  }

  abbrev pub authorized_state : Authorization → SupplierState
  authorized_state a = record (advance before event) {
    authorizations = before.authorizations ++ a ∷ [];
  }

  abbrev pub revoked_state : Text → SupplierState
  revoked_state id = record (advance before event) {
    authorizations = map (revoke id) before.authorizations;
  }

  abbrev pub moved_state : SupplierStatus → SupplierState
  moved_state status = record (advance before event) { status = status }

  pub verification_applied :
      (v : Verification)
      → is_closed before.status ≡ false
      → is_reused before v ≡ false
      → apply_to js before event (SupplierPayload.verification_recorded v) ≡ ok (verified_state v)
  unfolding apply_to
  verification_applied v writable unused = rw (writable, unused) refl

  pub authorization_applied :
      (a : Authorization)
      → is_closed before.status ≡ false
      → holds a.authorization_id before.authorizations ≡ false
      → apply_to js before event (SupplierPayload.authorization_recorded a)
        ≡ ok (authorized_state a)
  unfolding apply_to
  authorization_applied a writable unused = rw (writable, unused) refl

  pub revocation_applied :
      (id reason : Text)
      → is_irrevocable (find_authorization id before.authorizations) ≡ false
      → apply_to js before event (SupplierPayload.authorization_revoked id reason)
        ≡ ok (revoked_state id)
  unfolding apply_to
  revocation_applied id reason revocable = rw revocable refl

  pub suspension_applied :
      (reason : Text)
      → is_closed before.status ≡ false
      → apply_to js before event (SupplierPayload.suspended reason)
        ≡ ok (moved_state SupplierStatus.suspended)
  unfolding apply_to
  suspension_applied reason writable = rw writable refl

  pub activation_applied :
      (missing : List VerificationKind)
      → before.status ≡ SupplierStatus.pending_verification
      → missing_required_verification_kinds js before event.occurred_at ≡ ok missing
      → is_empty missing ≡ true
      → has_active_authorization js before event.occurred_at ≡ ok true
      → apply_to js before event (SupplierPayload.activated event.occurred_at)
        ≡ ok (moved_state SupplierStatus.active)
  unfolding apply_to
  activation_applied missing pending complete empty authorized =
      let same = (text_beq_iff event.occurred_at event.occurred_at).1 refl in
      let pending_test =
        (status_eq.beq_iff before.status SupplierStatus.pending_verification).1 pending in
      rw (pending_test, same, complete, empty, authorized) refl

-- What an activation needs of the state that it finds.
pub record IsReady (js : Engine) (before : SupplierState) (instant : Text) : Type 0 where
  pub waits : before.status ≡ SupplierStatus.pending_verification
  pub complete : missing_required_verification_kinds js before instant ≡ ok []
  pub authorized : has_active_authorization js before instant ≡ ok true

empty_list :
    (js : Engine) (before : SupplierState) (instant : Text) (missing : List VerificationKind)
    → missing_required_verification_kinds js before instant ≡ ok missing
    → not (is_empty missing) ≡ false
    → missing_required_verification_kinds js before instant ≡ ok []
empty_list js before instant [] h e = h
empty_list js before instant (k ∷ ks) h e = cc

pub IsReady-of_applied :
    (js : Engine) (before state : SupplierState) (event : SupplierEvent) (activated_at : Text)
    → apply_to js before event (SupplierPayload.activated activated_at) ≡ ok state
    → IsReady js before event.occurred_at
      × (activated_at ≡ event.occurred_at)
      × (moved_state js before event SupplierStatus.active ≡ state)
unfolding apply_to
IsReady-of_applied js before state event activated_at h =
    let waits = before.status == SupplierStatus.pending_verification in
    let same = activated_at == event.occurred_at in
    let (_, p, h1) = >>=-eq-ok (throw_if (not waits || not same) invalid_event_history) _ h in
    let (missing, m, h2) =
      >>=-eq-ok (missing_required_verification_kinds js before event.occurred_at) _ h1 in
    let (_, e, h3) = >>=-eq-ok (throw_if (not (is_empty missing)) invalid_event_history) _ h2 in
    let (authorized, a, h4) =
      >>=-eq-ok (has_active_authorization js before event.occurred_at) _ h3 in
    let (_, y, h5) = >>=-eq-ok (throw_if (not authorized) invalid_event_history) _ h4 in
    let (w, s) = both_true waits same (throw_if-eq-ok _ _ p) in
    let found = true_of_not authorized (throw_if-eq-ok _ _ y) in
    (
      record {
        waits = (status_eq.beq_iff before.status SupplierStatus.pending_verification).0 w;
        complete = empty_list js before event.occurred_at missing m (throw_if-eq-ok _ _ e);
        authorized = a ∙ ap ok found;
      },
      (text_beq_iff activated_at event.occurred_at).0 s,
      ok-injective h5,
    )

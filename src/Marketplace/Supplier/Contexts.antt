-- ===== src/Marketplace/Supplier/Contexts.antt =====
-- What the tests on a command's context have established when they pass
-- (packages/marketplace-domain/src/validation.ts and supplier.ts).
use token_streaming.Common.{
  subst, ℕ, ◌≤◌, ◌≡◌, true, false, not, some, ◌==◌, ltb, arith, Option-cases, inl, inr,
}
use token_streaming.Common.Outcome.{ok, throw_if, >>=-eq-ok, throw_if-eq-ok, ok-injective}
use token_streaming.Js.{Engine, get, Value, str}
use token_streaming.Js.Texts.{Text, text, text_eq, text_beq_iff}
use token_streaming.Marketplace.Errors.{invalid_argument, tenant_mismatch}
use token_streaming.Marketplace.Protocol.{Context, SupplierState}
use token_streaming.Marketplace.SafeInput.{assert_safe_input}
use token_streaming.Marketplace.Validation.{
  timestamp_of, parse_timestamp, is_identifier, assert_identifier, assert_timestamp, assert_context,
  assert_exact_keys, context_keys, assert_tenant, assert_command_not_before, text_of,
}
use token_streaming.Marketplace.Supplier.Commands.{assert_state_context}

pub parse_timestamp_iff-ok :
    (js : Engine) (s : Text) (at : ℕ) → parse_timestamp js s ≡ ok at → timestamp_of js s ≡ some at
unfolding parse_timestamp
parse_timestamp_iff-ok js s at h = elim (Option-cases (timestamp_of js s)) [
  | inl missing ↦ let same = rw (missing, parse_timestamp) at h in cc
  | inr (found, e) ↦ let same = rw (e, parse_timestamp) at h in cc
]

pub assert_timestamp-ok :
    (js : Engine) (v : Value) (at : ℕ)
    → assert_timestamp js v ≡ ok at
    → timestamp_of js (text_of v) ≡ some at
unfolding assert_timestamp
assert_timestamp-ok js (str s) at h = parse_timestamp_iff-ok js s at h
assert_timestamp-ok js _ at h = cc

pub assert_identifier-ok :
    (v : Value) (s : Text) → assert_identifier v ≡ ok s → is_identifier s ≡ true
unfolding assert_identifier
assert_identifier-ok (str t) s h = ground arith
assert_identifier-ok _ s h = cc

pub same_of_test : (s t : Text) → not (s == t) ≡ false → s ≡ t
same_of_test s t h = (text_beq_iff s t).0 (ground arith)

pub record IsContext (js : Engine) (context : Context) (at : ℕ) : Type 0 where
  pub tenant : is_identifier context.tenant_id ≡ true
  pub actor : is_identifier context.actor_id ≡ true
  pub command : is_identifier context.command_id ≡ true
  pub event : is_identifier context.event_id ≡ true
  pub timed : timestamp_of js context.occurred_at ≡ some at

pub IsContext-of_ok :
    (js : Engine) (v : Value) (context : Context)
    → assert_context js v ≡ ok context
    → (at : ℕ) × IsContext js context at
unfolding assert_context
IsContext-of_ok js v context h =
    let (_, _, h1) = >>=-eq-ok (assert_safe_input js v) _ h in
    let (_, _, h2) = >>=-eq-ok (assert_exact_keys js v context_keys) _ h1 in
    let (tenant, a, h3) = >>=-eq-ok (assert_identifier (get js v (text "tenantId"))) _ h2 in
    let (actor, b, h4) = >>=-eq-ok (assert_identifier (get js v (text "actorId"))) _ h3 in
    let (command, c, h5) = >>=-eq-ok (assert_identifier (get js v (text "commandId"))) _ h4 in
    let (event, d, h6) = >>=-eq-ok (assert_identifier (get js v (text "eventId"))) _ h5 in
    let (at, e, h7) = >>=-eq-ok (assert_timestamp js (get js v (text "occurredAt"))) _ h6 in
    let a' = assert_identifier-ok _ tenant a in
    let b' = assert_identifier-ok _ actor b in
    let c' = assert_identifier-ok _ command c in
    let d' = assert_identifier-ok _ event d in
    let e' = assert_timestamp-ok js (get js v (text "occurredAt")) at e in
    (
      at,
      subst (λ k. IsContext js k at) (ok-injective h7)
          (record { tenant = a'; actor = b'; command = c'; event = d'; timed = e' }),
    )

-- A context that may command on a state.
pub record IsFor (js : Engine) (state : SupplierState) (context : Context) (at : ℕ) : Type 0 where
  pub valid : IsContext js context at
  pub own_tenant : state.tenant_id ≡ context.tenant_id
  pub updated : ℕ
  pub last_update : timestamp_of js state.updated_at ≡ some updated
  pub in_order : updated ≤ at

pub IsFor-of_ok :
    (js : Engine) (state : SupplierState) (v : Value) (context : Context)
    → assert_state_context js state v ≡ ok context
    → (at : ℕ) × IsFor js state context at
unfolding assert_state_context assert_tenant assert_command_not_before
IsFor-of_ok js state v context h =
    let (found, a, h1) = >>=-eq-ok (assert_context js v) _ h in
    let (_, b, h2) =
      >>=-eq-ok (throw_if (not (state.tenant_id == found.tenant_id)) tenant_mismatch) _ h1 in
    let (_, c, h3) = >>=-eq-ok (assert_command_not_before js state.updated_at found) _ h2 in
    let (occurred, d, c1) = >>=-eq-ok (parse_timestamp js found.occurred_at) _ c in
    let (updated, e, c2) = >>=-eq-ok (parse_timestamp js state.updated_at) _ c1 in
    let (at, valid) = IsContext-of_ok js v found a in
    let order : ltb occurred updated ≡ false = throw_if-eq-ok _ invalid_argument c2 in
    let occurred_at = parse_timestamp_iff-ok js found.occurred_at occurred d in
    let same_at : at ≡ occurred = cc (valid.timed, occurred_at) in
    (
      at,
      subst (λ k. IsFor js state k at) (ok-injective h3)
          (record {
            valid = valid;
            own_tenant =
                same_of_test state.tenant_id found.tenant_id (throw_if-eq-ok _ tenant_mismatch b);
            updated = updated;
            last_update = parse_timestamp_iff-ok js state.updated_at updated e;
            in_order = ground arith;
          }),
    )

-- ===== src/Marketplace/Supplier/Effects.antt =====
-- The commands on a supplier, and what each may change (packages/marketplace-domain/src/supplier.ts).
use token_streaming.Common.{ℕ, ◌≡◌, false, not, [], ◌∷◌, ◌++◌, map, keep, ◌==◌, if◌then◌else◌}
use token_streaming.Common.Outcome.{ok}
use token_streaming.Js.{Engine, Value, get, str}
use token_streaming.Js.Texts.{Text, text, text_eq}
use token_streaming.Marketplace.Errors.{Result}
use token_streaming.Marketplace.Protocol.{
  SupplierStatus, Verification, Authorization, Context, SupplierPayload, SupplierEvent,
  SupplierState, AuthorizationStatus, kind_eq,
}
use token_streaming.Marketplace.Supplier.Rules.{is_closed, find_authorization, is_irrevocable}
use token_streaming.Marketplace.Supplier.Commands.{
  supplier_event, record_supplier_verification, record_provider_authorization,
  revoke_provider_authorization, activate_supplier, suspend_supplier,
}
use token_streaming.Marketplace.Supplier.History.{is_misnamed, apply_to}
use token_streaming.Marketplace.Supplier.Contexts.{IsFor}
use token_streaming.Marketplace.Supplier.Shown.{GivesVerification, GivesAuthorization}

-- The commands on a supplier that exists, with their inputs.
pub data Command : Type 0 where
  verify authorize withdraw suspend : Value → Command
  activate : Command

abbrev pub run_command : Engine → SupplierState → Command → Value → Result SupplierEvent
run_command js state (Command.verify input) context =
    record_supplier_verification js state input context
run_command js state (Command.authorize input) context =
    record_provider_authorization js state input context
run_command js state (Command.withdraw input) context =
    revoke_provider_authorization js state input context
run_command js state (Command.suspend input) context = suspend_supplier js state input context
run_command js state Command.activate context = activate_supplier js state context

-- What a command records, read from its input, and what it changes beside the version and the time of
-- the update.
abbrev pub Effect : Engine → Command → SupplierState → SupplierEvent → SupplierState → Type 0
Effect js (Command.verify input) before event state =
    (v : Verification) × GivesVerification js input v
    × (event.payload ≡ SupplierPayload.verification_recorded v)
    × (state.verifications
        ≡ keep (λ other. not (other.kind == v.kind)) before.verifications ++ v ∷ [])
    × (state.authorizations ≡ before.authorizations)
    × (state.status ≡ before.status)
    × (is_closed before.status ≡ false)
Effect js (Command.authorize input) before event state =
    (a : Authorization) × GivesAuthorization js input a
    × (event.payload ≡ SupplierPayload.authorization_recorded a)
    × (state.authorizations ≡ before.authorizations ++ a ∷ [])
    × (state.verifications ≡ before.verifications)
    × (state.status ≡ before.status)
    × (is_closed before.status ≡ false)
Effect js (Command.withdraw input) before event state =
    (id : Text) × (reason : Text) × (get js input (text "authorizationId") ≡ str id)
    × (get js input (text "reasonCode") ≡ str reason)
    × (event.payload ≡ SupplierPayload.authorization_revoked id reason)
    × (state.authorizations
        ≡ map
            (λ a.
              if a.authorization_id == id
              then record a { status = AuthorizationStatus.revoked }
              else a)
            before.authorizations)
    × (is_irrevocable (find_authorization id before.authorizations) ≡ false)
    × (state.verifications ≡ before.verifications)
    × (state.status ≡ before.status)
Effect js (Command.suspend input) before event state =
    (reason : Text) × (get js input (text "reasonCode") ≡ str reason)
    × (event.payload ≡ SupplierPayload.suspended reason)
    × (state.status ≡ SupplierStatus.suspended)
    × (is_closed before.status ≡ false)
    × (state.verifications ≡ before.verifications)
    × (state.authorizations ≡ before.authorizations)
Effect js Command.activate before event state =
    (event.payload ≡ SupplierPayload.activated event.occurred_at)
    × (state.status ≡ SupplierStatus.active)
    × (before.status ≡ SupplierStatus.pending_verification)
    × (state.verifications ≡ before.verifications)
    × (state.authorizations ≡ before.authorizations)

pub record Emits (js : Engine) (before : SupplierState) (command : Command) (event : SupplierEvent)
    : Type 0 where
  pub context : Context
  pub at : ℕ
  pub payload : SupplierPayload
  pub state : SupplierState
  pub for_state : IsFor js before context at
  pub shape : event ≡ supplier_event before context payload
  pub later : is_misnamed before.supplier_id payload ≡ false
  pub applied : apply_to js before (supplier_event before context payload) payload ≡ ok state
  pub effect : Effect js command before (supplier_event before context payload) state

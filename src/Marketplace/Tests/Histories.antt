-- ===== src/Marketplace/Tests/Histories.antt =====
-- Histories of suppliers: runs, and the theorems at inputs (packages/marketplace-domain/src/supplier.ts).
use token_streaming.Common.{◌+◌, ◌≡◌, refl, some, [], ◌∷◌, ◌++◌, length, All, arith}
use token_streaming.Common.Outcome.{ok}
use token_streaming.Js.{ref, str, get}
use token_streaming.Js.Texts.{text}
use token_streaming.Marketplace.Protocol.{SupplierStatus, SupplierState}
use token_streaming.Marketplace.Supplier.History.{rehydrate_supplier}
use token_streaming.Marketplace.Supplier.Effects.{Command, run_command, Effect}
use token_streaming.Marketplace.Supplier.Consistent.{Continues}
use token_streaming.Marketplace.Supplier.Replayed.{
  run_command-rehydrate, register_supplier-rehydrate,
}
use token_streaming.Marketplace.Supplier.Invariant.{IsSound, rehydrate_supplier-IsSound}
use token_streaming.Marketplace.Supplier.Lifecycle.{Activation, active_was_ready}
use token_streaming.Marketplace.Supplier.Suspension.{IsFrozen, suspended_is_final}
use token_streaming.Marketplace.Supplier.Ownership.{IsOf, rehydrate_supplier-IsOf}
use token_streaming.Marketplace.Code.{code}
use token_streaming.Marketplace.World.{engine}
use token_streaming.Marketplace.Cast.{
  registered_event, history, activation, suspension, withdrawal, waiting, selling, stopped,
  withdrawn, world,
}

history_waits : rehydrate_supplier engine history ≡ ok (some waiting)
unfolding code world
history_waits = refl

activation_sells : run_command engine waiting Command.activate (ref 2) ≡ ok activation
unfolding code world
activation_sells = refl

run_command-rehydrate_example :
    (state : SupplierState) × (rehydrate_supplier engine (history ++ activation ∷ [])
      ≡ ok (some state))
    × (state.version ≡ waiting.version + 1)
    × Continues waiting activation state
    × Effect engine Command.activate waiting activation state
unfolding code world
run_command-rehydrate_example =
    run_command-rehydrate engine history waiting Command.activate (ref 2) activation history_waits
      activation_sells (record { by_id = refl; by_cause = refl }) (omega arith)

register_supplier-rehydrate_example :
    (state : SupplierState) × (rehydrate_supplier engine (registered_event ∷ []) ≡ ok (some state))
    × (state.status ≡ SupplierStatus.pending_verification)
    × (state.version ≡ 1)
    × (state.verifications ≡ [])
    × (state.authorizations ≡ [])
    × (state.supplier_id ≡ registered_event.aggregate_id)
    × (state.tenant_id ≡ registered_event.tenant_id)
    × (state.updated_at ≡ registered_event.occurred_at)
    × (get engine (ref 1) (text "supplierId") ≡ str state.supplier_id)
    × (get engine (ref 0) (text "tenantId") ≡ str state.tenant_id)
    × (get engine (ref 0) (text "occurredAt") ≡ str state.updated_at)
unfolding code world
register_supplier-rehydrate_example =
    register_supplier-rehydrate engine (ref 1) (ref 0) registered_event refl

history_sells : rehydrate_supplier engine (history ++ activation ∷ []) ≡ ok (some selling)
unfolding code world
history_sells = refl

history_stops :
    rehydrate_supplier engine (history ++ activation ∷ suspension ∷ []) ≡ ok (some stopped)
unfolding code world
history_stops = refl

history_withdraws :
    rehydrate_supplier engine ((history ++ activation ∷ suspension ∷ []) ++ withdrawal ∷ [])
    ≡ ok (some withdrawn)
unfolding code world
history_withdraws = refl

rehydrate_supplier-IsSound_example :
    IsSound selling × (selling.version ≡ length (history ++ activation ∷ []))
rehydrate_supplier-IsSound_example =
    rehydrate_supplier-IsSound engine (history ++ activation ∷ []) selling history_sells

active_was_ready_example : Activation engine (history ++ activation ∷ [])
unfolding code world
active_was_ready_example =
    active_was_ready engine (history ++ activation ∷ []) selling history_sells refl

suspended_is_final_example : IsFrozen stopped withdrawn
unfolding code world
suspended_is_final_example =
    suspended_is_final engine (history ++ activation ∷ suspension ∷ []) (withdrawal ∷ []) stopped
      withdrawn history_stops refl history_withdraws

rehydrate_supplier-IsOf_example : All (IsOf selling) (history ++ activation ∷ [])
rehydrate_supplier-IsOf_example =
    rehydrate_supplier-IsOf engine (history ++ activation ∷ []) selling history_sells

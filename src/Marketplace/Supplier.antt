-- ===== src/Marketplace/Supplier.antt =====
-- packages/marketplace-domain/src/supplier.ts: a supplier is an event-sourced aggregate. Commands
-- test an input against the state and return an event; `rehydrate` replays a history.
pub mod Rules
pub mod Inputs
pub mod Commands
pub mod History
pub mod Accepts
pub mod Consistent
pub mod Contexts
pub mod Applied
pub mod Effects
pub mod Emitted
pub mod Fresh
pub mod Shown
pub mod Readings
pub mod Replayed
pub mod Induction
pub mod Distinct
pub mod Invariant
pub mod Ready
pub mod Lifecycle
pub mod Suspension
pub mod Ownership

-- ===== src/Marketplace.antt =====
-- packages/marketplace-domain: the commands, the event histories and the pure rules of the
-- marketplace. The types are those of packages/protocol.
pub mod Errors
pub mod Protocol
pub mod SafeInput
pub mod Validation
pub mod Literals
pub mod Settlement
pub mod Cancellation
pub mod Privacy
pub mod Supplier
pub mod Patterns
pub mod Offer
pub mod Evidence
pub mod Attestation
pub mod Code
pub mod World
pub mod Cast
mod Tests

-- ===== src/Node.antt =====
-- apps/supplier-node/src: the node of a supplier that serves inference requests.
pub mod Errors
pub mod Capacity
pub mod Journal
pub mod Signature
pub mod Requests
pub mod Executions
pub mod Runtime
pub mod Code
mod Tests

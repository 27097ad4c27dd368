-- ===== src/Lib.antt =====
-- Verification of token-streaming: its marketplace domain, the node of a supplier that serves inference
-- requests, and the permission policy of the agent.
--
-- The domain package decides what a marketplace for model capacity may do. A supplier registers, is
-- verified, gains authorizations of model providers and is activated; each command tests an unknown
-- input and a context against the supplier's state and returns one event, and the state is what the
-- replay of the supplier's events gives. An active supplier publishes capacity offers under one of its
-- authorizations. A gateway attests what it can serve, an execution returns evidence, and a settlement
-- splits the charge between supplier and platform. The node verifies the signature of a call,
-- remembers its nonce and its job in a journal on disk that outlives restarts, admits it through a
-- capacity gate, asks the provider, and answers with signed evidence. Apart from the marketplace, the
-- agent asks a permission policy, read from a repository's manifest, before it applies a patch or runs
-- a command.
--
-- Files and code:
--   Js            the values of the language: numbers, texts of UTF-16 units (Js/Texts) and their size
--                 in bytes (Js/Utf8), decimal texts (Js/Decimal), maps with texts as keys (Js/Maps),
--                 what JSON.parse returns (Js/Json), and a store of objects, since the input tests
--                 compare identities
--   Marketplace/Errors, Protocol, Literals
--                 packages/marketplace-domain/src/errors.ts, packages/protocol/src/marketplace.ts
--   Marketplace/SafeInput, Validation
--                 packages/marketplace-domain/src/validation.ts: assertSafeInput is assert_safe_input,
--                 with its loop walk over the stack `pending`; the other assertions keep their names
--   Marketplace/Supplier
--                 packages/marketplace-domain/src/supplier.ts: Rules (verifications and authorizations),
--                 Inputs (field tests), Commands (registerSupplier and the five commands on a state),
--                 History (rehydrateSupplier as replay_events, applySupplierEvent as apply_to)
--   Marketplace/Offer, Patterns
--                 packages/marketplace-domain/src/capacity-offer.ts
--   Marketplace/Evidence, Attestation
--                 packages/marketplace-domain/src/execution-evidence.ts, artifact-evidence.ts and
--                 gateway-attestation.ts, with the types of packages/protocol/src/supplier-gateway.ts and
--                 artifact-task.ts
--   Marketplace/Settlement, Cancellation, Privacy
--                 packages/marketplace-domain/src/settlement.ts, artifact-cancellation.ts, privacy.ts
--   Node/Errors, Capacity
--                 apps/supplier-node/src/errors.ts, capacity.ts: the gate
--   Node/Journal  apps/supplier-node/src/replay-journal.ts: claimNonce, claimRequest, compactNow and the
--                 constructor (open_journal) over the maps and the file; File has the compaction and the
--                 lines, Records has parseRecord, Events what happens to a journal, also restarts
--   Node/Signature
--                 apps/supplier-node/src/signature.ts: check_call and verify_and_record are the two halves
--                 of verifySignedGatewayCall, before the guard and in it
--   Node/Requests, Executions, Runtime
--                 apps/supplier-node/src/runtime.ts: the parsing and the tests of requests and of a
--                 provider's results; handleInference, handleAttestation, execute; Events what happens
--                 to a node
--   Permissions   packages/core/src/permissions/policy.ts: decisions on patches, commands, tools and tests
--   Marketplace/World, Cast, Code, Tests; Node/Code, Tests, and Tests below the parts of Node
--                 a concrete store, a supplier, the lists of definitions that a test opens, runs
-- The other files below a component hold its proofs and are named for what they prove.
--
-- A call that throws is a value of Outcome; an error is its code, messages and details are left out. An
-- assertion that narrows a type returns the narrowed value, so that a command reads its input once;
-- a getter that answers differently each time is not covered, nor a proxy. An object holds its own
-- enumerable properties with texts as keys, an array its elements: Object.entries reads no other, so an
-- input that is accepted may hold what the model does not say under a symbol or a hidden key. Times are milliseconds from
-- the earliest time value of the language; Date.parse is a field of the record Engine, since its result
-- on a text that is no ISO-8601 date depends on the engine. Lower case and regular expressions on texts
-- that a repository chooses are fields of the record Matching. Subtractions of times stand on the other
-- side of their comparison.
--
-- Of the node: SHA-256, HMAC, JSON.parse and the provider's answers are parameters; the theorems ask of
-- the hashes only that they are 64 hexadecimal digits. The journal's file is held as its lines, each as
-- the value that JSON.parse gives or as unreadable, with the size of a line as a parameter. The record
-- Disk says how the calls to the disk end that one operation makes, so a theorem that ranges over it
-- covers every failure of the disk, and a stop of the node within an operation. A call of the node runs
-- up to its first await at once; the provider's answer is an event of its own, and a promise is the
-- number of an execution. Draining leaves the timer of the journal as an event that may still come.
--
-- Bounds: assertSafeInput visits at most 1000 objects, so its loop runs on 1000 units of fuel for
-- objects and structurally on the stack between them, and refuses when they are spent, as the source
-- does. The rounding of a product to a double halves at most 64 times, enough below 2 ^ 117, and the
-- products of safe integers that occur stay below 2 ^ 75. A number is printed by recursion on
-- the accessibility of `<`. Everything else is structural.
--
-- Not modelled: the web application and its database, the command line, the agent runtime without its
-- policy, the model providers, storage and manifests, and of the supplier node its server, its
-- configuration, the provider adapter and the artifact executor, of whose tasks only the calls for the
-- provider are there, as events that may come at any time. They are input
-- and output around other services, or stand outside the parts above.
pub mod Common
pub mod Js
pub mod Marketplace
pub mod Node
pub mod Permissions

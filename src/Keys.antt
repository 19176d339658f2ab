-- ===== src/Keys.antt =====
-- The keys that contracts are stored and looked up by (src/core/contracts/apiPath.ts,
-- canonicalEventContractKey of event.ts and targetNormalization.ts): the normal form of an API path
-- in Paths, the key of each kind of contract in Contracts, the text of a target in Targets.
-- Brokers infers the broker of an event (event.ts).
pub mod Paths
pub mod Contracts
pub mod Targets
pub mod Brokers

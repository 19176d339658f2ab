-- ===== src/Matching.antt =====
-- Resolution of semantic relations across repositories (src/core/contracts/matching): what the
-- domain resolvers share. `Roles` splits specs by role, `Links` is their pairing loop.
pub mod Roles
pub mod Schema
pub mod Links
pub mod Pairs
pub mod Frame
pub mod Grpc
pub mod Graphql
pub mod Internal
pub mod Dubbo
pub mod Http
pub mod Event

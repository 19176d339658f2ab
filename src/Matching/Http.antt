-- ===== src/Matching/Http.antt =====
-- HTTP relations (src/core/contracts/matching/httpResolver.ts): `Paths` has the path patterns,
-- `Classify` the kinds of match, `Resolve` the search by buckets and the choice by repository.
pub mod Paths
pub mod Classify
pub mod Resolve

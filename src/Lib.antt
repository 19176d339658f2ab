-- ===== src/Lib.antt =====
-- The semantic contract graph: how specs of contracts in many repositories are related, and what
-- follows from the relations.
--
-- Extractors report specs of contracts (HTTP endpoints, events, methods of gRPC and Dubbo, GraphQL
-- operations) with the repository, the file and a payload in JSON, and edges from repositories to
-- contracts that declare a role. The resolvers pair the consumers of a contract with its producers
-- in other repositories. Their edges are merged, turned into dependencies of repositories, and
-- walked by the impact analysis from a changed spec to what depends on it.
--
-- Nodes: the nodes and edges of the graph (src/core/parsing/types.ts).
-- Confidence: the confidence of each rule, its band, and the score of a call
--   (src/shared/confidence.ts).
-- Specs: the payloads (src/core/contracts/spec.ts).
-- Matching: the resolvers (src/core/contracts/matching). Roles has the split of specs by role
--   (types.ts and the first loop of each resolver), Links the loops that emit an edge once per
--   key, Frame what grpcResolver.ts and dubboResolver.ts share. Grpc, Dubbo, Event, Graphql and
--   Internal have resolve_grpc_relations (resolveGrpcRelations) and so on; Http has the path
--   patterns, the classification of a match and the search by buckets of httpResolver.ts.
-- Resolver: resolveSemanticRelations, which builds the map of roles, calls the resolvers in order
--   and deduplicates their edges (src/core/contracts/resolver.ts).
-- Deps: mergeAndDedupeDeps (src/core/contracts/depsMerge.ts).
-- Relations: the table of relation kinds and the roots of an analysis
--   (src/core/contracts/semanticRelations.ts).
-- Impact: traverseImpactSteps; Items: the items of a report, their deduplication and counts;
--   Rules: what a change means for the specs of each kind; Targets: findTargetSpecs; Analysis:
--   analyzeImpact (src/core/contracts/impact/impactEngine.ts, types.ts and rules); FieldSearch:
--   stripCommentsAndStrings (src/core/contracts/impact/fieldSearch.ts).
-- Indexing: the two queues of index jobs (src/core/indexing/scheduler.ts), as state machines whose
--   steps are what happens between two awaits. Serial is SingleProcessIndexQueue, one job at a
--   time; Line what it promises, History what has become of the calls, Outcomes what the jobs come
--   to; Pool is runIndexQueue, with workers that run at once and retries.
-- Keys: the normal form of an API path (Paths), the keys of contracts (Contracts, both
--   src/core/contracts/apiPath.ts, with canonicalEventContractKey of event.ts) and
--   normalizeSemanticTarget (Targets, src/core/contracts/targetNormalization.ts). A regular
--   expression is a walk over the characters. Brokers: the broker of an event by its imports or
--   receiver (src/core/contracts/event.ts).
-- Extraction: the builder of facts and the deduplication by key
--   (src/core/contracts/extraction/extractionBuilder.ts and dedup.ts).
-- Registry: ParserRegistry, the stacks of language parsers (src/core/registries/registry.ts). A
--   parser's identity stands for the reference, by which the code compares parsers.
-- Shared: lists, maps and loops. A Map is a list of entries in the order of their first insertion,
--   a Set a list without repetition, a for loop a recursion on the list that carries the state.
-- Tests: the theorems at small inputs.
--
-- A confidence is a number of hundredths, since the code compares and copies confidences, and adds
-- them only in scoreCallResolution, which rounds to hundredths. JSON.parse of a payload is a
-- parameter, String → Option, where none stands for the exception it throws; the exception ends
-- the call, so a resolver returns an Option. toLowerCase, toUpperCase and the decimal text of a
-- number are parameters. A field that an edge literal leaves out is none. Texts are compared by
-- code points where the code compares UTF-16 units.
--
-- The promise that chains the jobs of SingleProcessIndexQueue is the list of the jobs that wait
-- for it. That a job is started only when the one before is settled is what `then` means: it is a
-- guard of the model's step and not a result. A call of runNext that waits is the position of its
-- job, a job is only resumed when what it waits for is settled, and runs alone up to its next
-- await.
--
-- One definition has fuel, the outer loop of runNext (run_next), which is given as many rounds as
-- there are jobs; each round takes a job. The walk of the impact analysis recurs on the number of
-- hops that are left, which is its bound in the code, and every other loop on its list.
--
-- Not modelled: the grading of an edge by its reason (semanticRelationResolution), which is a
-- matter of regular expressions; the primitive types of spec.ts; findFieldReferences, which the
-- analysis takes as a parameter; the extractors, which read syntax
-- trees; the graph databases, the command line, the server, the models and the file system, which
-- are calls of other programs.
pub mod Shared
pub mod Nodes
pub mod Confidence
pub mod Specs
pub mod Matching
pub mod Resolver
pub mod Deps
pub mod Relations
pub mod Impact
pub mod Indexing
pub mod Keys
pub mod Extraction
pub mod Registry
pub mod Tests

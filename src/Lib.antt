-- ===== src/Lib.antt =====
-- A verification library for Pactum, a protocol for commitments and reputation on Stellar.
--
-- The program's parts that are modelled, and the files that model them:
-- * The codec that passes rule sets to WebAssembly (frontend/src/lib/ast/types.ts and binary.ts):
--   Ast. Ast.Types holds the expression tree; Ast.Binary.Writer and Reader are the two classes,
--   with one function per method; Ast.Binary.Tags the tables; Ast.Binary.Encode and Decode the
--   serializers. The deserializer runs on fuel for its depth: the guard on the depth stops it after
--   66 levels, and `enough_fuel` is that number. Ast.Binary.Encode.Bytes describes the format
--   without the writer. IEEE doubles and the text codec are a parameter, Ast.Binary.Platform, with
--   two laws: eight bytes for a double, and reading them gives it back.
-- * The rule engine of forms (frontend/src/lib/ast): Ast again. Ast.Compiler (with its child
--   Rules) is compiler.ts, which turns an untrusted document into closures; Ast.Runtime its helpers
--   on values, Ast.Regex its guard against nested quantifiers, Ast.Compiler.Words its tables and
--   limits, and Ast.Compiler.Errors what it throws. It runs on fuel for its depth, of which 66 is
--   enough, and the guard for patterns on fuel from their length; running out would be a message of
--   its own. Ast.Compiler.Documents is the evaluator on trees that the compiler is compared with.
--   Ast.Resolver is resolver.ts, the resolver of a form that takes the compiled rules. What
--   JavaScript gives (doubles, dates, case, RegExp) is Ast.Values.Script.
-- * The relayer (backend/src/relayer): Relayer. MerkleTree (merkleTree.ts) is the tree over proof
--   leaves; its loop runs on fuel, one round for each leaf, and SHA-256 is a parameter.
--   DurableQueue (durableQueue.ts) is the queue that survives a restart; ProofBatch
--   (proofBatchEngine.ts) the engine that drains it. The awaits of a flush and of an enqueue are
--   where other calls come between; a persist is one step with the call it belongs to, and
--   DurableQueue.Overlap takes it apart into its steps.
-- * The mesh of browsers (frontend/src/lib/mesh): Mesh. PeerScoring (peerScoring.ts) keeps scores
--   and bans, with scores and the decay factor in whole hundredths, on which it rounds as
--   `Math.round` does; Plumtree (plumtreeEngine.ts) keeps the overlays, calls the scoring for each
--   peer it deals with, and its callbacks are the lists `sent` and `delivered`.
-- * The indexers (backend/src/indexer): Indexer. Store (store.ts, the one in memory) keeps
--   ledgers and a checkpoint; Finality (listener.ts, `FinalityIndexer`) reads a source and drives
--   the store through reorganisations; HorizonSse (listener.ts, `HorizonSSEIndexer`) is the stream
--   with its reconnects, which also counts the streams and timers whose handle was overwritten.
-- * The pool of RPC nodes (frontend/src/lib/sorobanRpcPool.ts): Rpc. Errors says what is retried,
--   Pool keeps the scores and the ranking, Pool.Execute takes a call through the ranked nodes;
--   Pool.Order and Pool.Served say what it promises without them. The moving average of latencies
--   is a parameter, Rpc.Pool.Average, which says that its order goes one way.
-- * The rate limiter (backend/src/middleware/rateLimiter.ts): Backend.RateLimiter, with one
--   function for the handler of a request, and Backend.RateLimiter.Reference the specification that
--   forgets nothing.
-- * The optimistic rollup (frontend/src/lib): Rollup. Accumulator (merkleAccumulator.ts) is the
--   tree of the open batch, with its cache of proofs; Engine (optimisticRollup.ts) applies
--   commitments in order, and its child Batches seals batches and follows their submission. A round
--   of its buffer takes an entry, so that as many rounds as entries are enough. Conflicts
--   (optimisticEngine.ts) reconciles mutations of cached queries with events of the chain; the
--   cache of react-query is Rollup.Conflicts.QueryClient, whose laws say that a write is read back,
--   changes no query with another hash, and does nothing for `undefined`; keys with the same JSON
--   have the same hash.
-- * Offline state (frontend/src/lib/crdt): Crdt. VectorClock (secureVectorClock.ts) is the causal
--   order, Merge (merge.ts) the reconciliation of the local records with those of the backend.
--
-- Prelude holds what the parts share: tests on native numbers, lists, texts as lists of units,
-- results of code that throws, `Map` and `Set` of JavaScript in insertion order, and signed
-- integers. Tests holds runs and the conditions of the theorems at concrete inputs.
--
-- State is passed explicitly. The clock is an argument `now`; a timer, an interval, an await that
-- resumes and the outcome of an external call are calls that the environment makes, in any order.
-- `number` is a natural number where the code counts, and a signed integer where a peer may send
-- it.
--
-- Not modelled: the store over PostgreSQL, signatures (WebCrypto, validators), the WebRTC
-- transport, Yjs, the Merkle DAG, anti-entropy, the sandbox in WebAssembly, HTTP routes, workers,
-- the user interface, and the contracts in Rust, Solidity and Noir. They rest on external
-- services, serve the transport (the Merkle DAG and anti-entropy) or stand in other languages.
pub mod Prelude
pub mod Ast
pub mod Relayer
pub mod Mesh
pub mod Indexer
pub mod Crdt
pub mod Rpc
pub mod Backend
pub mod Rollup
pub mod Tests

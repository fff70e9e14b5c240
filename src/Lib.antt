-- ===== src/Lib.antt =====
-- Verification of the fast-vector library: exact and approximate vector search, the file formats of
-- both indexes and their publication, the thread-safe store around an index, the service that
-- replaces its snapshot, and the bounded scheduler of queries.
--
-- The program and its model:
--   * src/distance.cpp, distance_auto.cpp, distance_avx2.cpp: `Distance`. Vectors are lists of IEEE
--     754 bit patterns (`Float`): classification and comparison compute, rounding arithmetic is a
--     parameter (`Machine`), with whether the processor has AVX2.
--   * include/fast_vector/search_context.h: `SearchContext`. Each check meets an observation, the
--     stop reason and the time that other threads and the clock give it. `SearchContext.Budgets`
--     has the loops that call `checkpoint`.
--   * include/fast_vector/search_result.h and the order of results: `SearchResult`. `Ranking` has
--     std::sort and std::priority_queue for an order, `Ranking.Bounded` the queue of the k best.
--   * src/flat_index.cpp (FlatIndex: the constructor, add, erase, search, size): `FlatIndex`. The
--     row-major array, the IDs and the map are a record. `Storage`, `Invariant`, `Lookup` and
--     `Search` hold its proofs; `Refinement` compares it with a finite map, and `Interface` makes it
--     the store's index.
--   * include/fast_vector/vector_index.h: `VectorIndex`, operations with their contract as laws.
--   * src/flat_index_io.cpp: `Bytes` (integers, checksum, checked arithmetic) and `FlatIndexIo`
--     (save, load). A file is a list of bytes.
--   * src/hnsw_index.cpp (HnswIndex): `HnswIndex`. `Layers` has the searches of one layer,
--     `Neighbors` the selection, `Insertion` the insertion with its transaction, and rebuild,
--     `Search` the query. The generator and the logarithm are a parameter (`Platform`), and so is
--     the number of allocations after which one throws. `Graph`, `Restore`, `Rollback`, `Linking`,
--     `Guarantee`, `Exceptions` and `Degree` hold the proofs of insertion that throws; `Explored`,
--     `Descended` and `Found` those of the searches; `Planned`, `Wired`, `Appended`, `Navigable`,
--     `Inserted`, `Rebuilt`, `Termination` and `Histories` lead to histories of calls.
--   * src/hnsw_index_io.cpp: `HnswIndexIo` (header), with `Save` and `Load`. The text of the
--     generator is a parameter (`RandomText`). `Layout`, `Flags` and `Sound` say what a loaded index
--     satisfies; `HeaderTrip`, `GraphTrip`, `Sizes`, `Accepted`, `Savable`, `Payload` and
--     `RoundTrip` lead to the round trip.
--   * src/hnsw_index_publish.cpp (publish_hnsw_index): `HnswIndexPublish`. A run lists the states of
--     the file system, and the answers of the system calls are an argument (`Calls`). `Atomic` and
--     `Delivered` hold its proofs.
--   * src/vector_store.cpp (VectorStore): `VectorStore`, one step for each method, over any index
--     that keeps the contract. `Query` takes search apart into steps, of which the acquisition of
--     the snapshot is one, and `Overlap` has queries that overlap other calls; `Alone` compares the
--     steps with the whole. `Publication`, `Trace`, `Served`, `Answered`, `Untouched`, `Counted` and
--     `Batch` hold its proofs.
--   * service/snapshot_publication.cpp (SnapshotPublication): `SnapshotPublication`, with `Manifest`
--     (messages, checks and digest) and `Activate`. The mutex makes each method one step; complete,
--     which loads without it, is three. `Trace` has the histories, and the other children the
--     proofs. Protobuf and OpenSSL are parameters (`Libraries`), and so are the two loaders.
--   * src/search_executor.cpp (SearchExecutor): `SearchExecutor`. The critical sections of submit,
--     cancel, stop and of a worker's run are steps, and a schedule is a list of events.
--   * src/batch_searcher.cpp (BatchSearcher): `BatchSearcher`. The order in which the workers finish
--     is an argument; `BatchSearcher.Order` holds its proofs.
-- `Examples` has tests, and the theorems at concrete inputs.
--
-- The parts meet where they do in the code: the store calls an index through `VectorIndex`, an
-- index checks the `SearchContext` that the scheduler made, and a worker's step takes the answer
-- of the store as part of its event. Errors are values of one type, with a constructor for each
-- throw (`Prelude.Results`).
--
-- Bounds: sizes are natural numbers; 64-bit wrap-around is written out where the code can meet it
-- (the checkpoint counter, the format's products and sums, the store's counters and versions). The
-- scheduler's 64-bit counters are not wrapped. Loops are structural recursion. The rounds of the
-- AVX2 loop are the length over eight. The two searches of a layer of the graph have the number of
-- nodes as fuel, since the code moves to better nodes and marks what it has visited; where it ran
-- out they would end with an error of the model's own, which is what `HnswIndex.Histories` is about.
--
-- Not modelled: memory order of the relaxed counters, and the lifetime of snapshots behind shared
-- pointers; thread creation and joining; what fsync makes durable; the staging file of the snapshot
-- service; the gRPC service, the logger, the command line tools and the benchmarks.
pub mod Prelude
pub mod Float
pub mod Distance
pub mod SearchContext
pub mod Ranking
pub mod SearchResult
pub mod FlatIndex
pub mod VectorIndex
pub mod VectorStore
pub mod SearchExecutor
pub mod SnapshotPublication
pub mod Bytes
pub mod FlatIndexIo
pub mod Examples
pub mod HnswIndex
pub mod HnswIndexIo
pub mod HnswIndexPublish
pub mod BatchSearcher

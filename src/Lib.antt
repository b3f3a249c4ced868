-- ===== src/Lib.antt =====
-- map_router: road routing over contraction hierarchies.
--
-- The program has two halves. The preprocessor (cmd/preprocess) reads an OSM extract (pkg/osm),
-- builds a directed road graph in CSR form (pkg/graph), contracts it (pkg/ch) and writes it to a
-- file. The server (cmd/server) loads such files, snaps the two points of a request to roads, runs
-- a bidirectional Dijkstra search over the two upward graphs (pkg/routing), unpacks the path and
-- answers over HTTP (pkg/api). This library models the parts below.
--
-- Heap.antt, Routing/MinHeap.antt: the array heap of pkg/routing/dijkstra.go. `sift_up_loop` and
--   `sift_down_loop` are the loops of `siftUp` and `siftDown`, generic in the item's key.
-- Routing/QueryState.antt: `QueryState` of the same file. `Half` holds the arrays of one direction,
--   and one function at a half stands for the forward and the backward copy of the code.
-- Routing/Search.antt: `runCHDijkstra` of pkg/routing/engine.go. `step` is one half of an iteration
--   (pop, stale test, meeting test, relaxation), `search_loop` the loop. A sum of distances is
--   taken modulo 2^32, as on `uint32`. `cancelled i` is the answer of `ctx.Err()` at iteration `i`.
-- Routing/Unpack.antt: pkg/routing/unpack.go. `unpack_loop` is the inner loop with its stack, whose
--   top comes first.
-- Routing/Snap/Grid.antt, Routing/Snap/Nearest.antt: pkg/routing/snap.go, the grid index and the
--   candidates near a point. `none` of `snap` is `ErrPointTooFar`.
-- Routing/Seed.antt, Routing/Engine.antt: the rest of pkg/routing/engine.go. `query` is what `Route`
--   and `RouteBetweenSnaps` share: the search, its result, and the reset state for the pool.
-- Ch/WitnessHeap.antt, Ch/ContractionPq.antt: the two heaps of pkg/ch, as instances of Heap.antt.
-- Ch/Witness.antt: `batchWitnessSearch` of pkg/ch/witness.go. Ch/Shortcuts.antt, Ch/Contractor.antt
--   and Ch/Overlay.antt: pkg/ch/contractor.go, with `Contraction` as the main loop's variables.
-- Api/Handlers.antt: `HandleRoute` of pkg/api/handlers.go, from the media type and the decoded body
--   to the response. Api/Server.antt: `withMiddleware` of pkg/api/server.go; `Step` is one event, a
--   request that comes in or one whose handler ends, and `Flight` a request with its deferred
--   functions.
-- Graph.antt: the records of pkg/graph/graph.go. Graph/Bytes.antt, Graph/Csr.antt and
--   Graph/Binary.antt: pkg/graph/binary.go, with a file as the list of its bytes.
--   Graph/Split.antt: pkg/graph/binary_split.go. Graph/Build.antt: pkg/graph/builder.go, with the map
--   of the node ids as a list of its entries. Graph/Rows.antt: the counting that it shares with
--   pkg/ch/contractor.go.
-- Graph/UnionFind.antt, Graph/Components.antt, Graph/Filter.antt: pkg/graph/component.go.
-- Geo.antt: pkg/geo/haversine.go. Osm/Access.antt, Osm/Parse.antt: pkg/osm/parser.go.
--   Osm/Speeds.antt: pkg/osm/speeds.go.
-- Sort.antt: what `sort.Slice` promises, as an interface.
-- Base, Run, Load, Array, Word, Float: shared types. `Run` is the outcome of code that may panic on
--   an index, `Load` the outcome of reading a file, `Float` the operations of `float64`.
--
-- Fuel. The sifts take one more step than the index or the length, which is enough because the
-- index halves or doubles. `search_loop` takes its fuel as an argument; `total_work` of
-- Routing/Search/Loop.antt counts the labels that can still be lowered and the entries in the two
-- queues, and any fuel above it is enough. `unpack_loop` takes `hop_fuel 201`
-- and one more, the size of a full binary tree as deep as the code's depth bound. The loops of
-- `reconstruct_overlay_path` take their fuel as an argument, and any above the heights of
-- Routing/Engine/Trace.antt is enough. A witness search takes its fuel as an argument too: its
-- labels and its queue pay for the rounds, so 2^32 for each node is enough. `find_loop` takes any
-- fuel above the heights of its forest: 1 at the start, and one more for a call of `union`. The searches of `compute_scc` take their fuel as an argument.
-- The main loop of `contract` takes a number of rounds, as a node can go back to the queue any
-- number of times.
--
-- Parameters. The CRC-32 of hash/crc32, `osm.Tags.Find`, the objects that osmpbf.Scanner yields, the
-- text functions of strings and strconv, the decoded body of a request, `sort.Slice`, `sort.Search`, the
-- order of a `range` over a map and all of `float64` are arguments of the definitions. A
-- theorem that needs a law of one of them has it as a hypothesis.
--
-- Not modelled: restricted roads (pkg/graph/restricted.go), the other handlers and the programs in
-- cmd. File system errors, log output and timing are outside the model.
pub mod Base
pub mod Run
pub mod Load
pub mod Array
pub mod Word
pub mod Float
pub mod Heap
pub mod Graph
pub mod Routing
pub mod Geo
pub mod Osm
pub mod Tests
pub mod Api
pub mod Ch
pub mod Sort

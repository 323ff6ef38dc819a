-- ===== src/Lib.antt =====
-- arcgo: collections, a framer, retry and bulkhead policies, SQL templates and locks, modelled
-- from their Go code.
--
-- The repository is a set of Go libraries: collections (collectionx), a SQL layer (dbx), clients
-- (clientx), authentication (authx), dependency injection (dix), an event bus (eventx), HTTP
-- (httpx), key-value stores (kvx), configuration (configx), logging (logx) and observability
-- (observabilityx). The collections are what the others keep their state in. Modelled are
-- collections of collectionx, and of the libraries above them the parts with logic of their own:
-- the paging and the SQL templates of dbx, the framer and the policies of clientx, and the locks
-- of kvx. The templates call the list of collectionx, which is a list here. A method that changes
-- its receiver takes the state and returns the new one; a value with a flag, and a value with an
-- error, are an option. A nil receiver is not modelled: its methods return at once, with what they
-- return for an empty collection.
--
-- The files:
--
--   * Prelude: the shared names, lists over the native numbers, the interfaces of an ordered type
--     (cmp.Ordered), of a comparable type and of a type with a zero value, and the serialization
--     cache that the collections embed (collectionx/internal).
--
--   * Interval/Range: collectionx/interval/range.go, the half-open range.
--
--   * Interval/Search: the standard library's sort.Search, by halving, on fuel equal to the length
--     of the slice; each round shortens the interval, so that the fuel does not run out.
--
--   * Interval/RangeSet: collectionx/interval/range_set.go, and Json the methods of RangeSet in
--     json.go. The state is the slice of ranges, the cache that Ranges fills and the JSON cache;
--     addRangeToSet, mergeSetRanges, removeRangeFromSet and trimSetRange are the functions of
--     their names. Spec has the walks that the searches and splices amount to and the normal form,
--     Points and Cuts what the walks do to the points, Methods each method, Coherent the caches,
--     Run sequences of calls. json.Marshal is a parameter.
--
--   * Interval/RangeMap: collectionx/interval/range_map.go, in the same way, with putRangeEntry,
--     splitLeftRangeEntry, splitRightRangeEntry and deleteRangeEntries. Its JSON methods are not
--     modelled.
--
--   * Sequences/Circular: what a circular slice holds in a window of logical indices.
--     Sequences/Ends: the ends of a list of items.
--
--   * Sequences/RingBuffer: collectionx/list/ring_buffer.go. Sequences/Deque:
--     collectionx/list/deque.go; the doubling of the capacity runs on fuel equal to what is
--     needed, and each round adds at least one. Sequences/GoList: the type List of
--     collectionx/list/list.go; Moves and Compact have what its moves within the slice come to.
--
--   * Mapping/GoMap: Go's built-in map. Mapping/Map: collectionx/mapping/map.go, with the methods
--     of Map in json.go. Mapping/BiMap: bimap.go. Mapping/OrderedMap: ordered_map.go, whose slice
--     of keys, map of items and map of indices agree with one list of entries; Copies and Slices
--     have the methods that copy entries into a new map; its JSON methods are not modelled.
--
--   * Sets/MultiSet: collectionx/set/multiset.go; Counts has the sums and occurrences over a map
--     of counts.
--
--   * Paging: dbx/paging/pagination.go.
--
--   * Client/Framer: clientx/codec/framer.go. A reader is the bytes to come and how they end; a
--     writer is an interface that takes some bytes of a call. writeFull is on fuel, one round for
--     each byte, which is enough for a writer that takes a byte at least at each call without an
--     error. Read, Write and RoundTrip have the properties of the two directions and of both.
--
--   * Client/Policy: clientx/policy.go. A call of a policy returns or panics. The loop of
--     InvokeWithPolicies is on fuel, one for each attempt: as many as the first attempt after
--     which no policy asks for another. Chain has the order and the errors of the policies; Retry
--     is policy_retry.go, Bulkhead policy_bulkhead.go, where the calls of the client are entries
--     of a list and take steps in any order, and a call of After without a Before is a step of its
--     own.
--
--   * Template: dbx/sqltmplx, with Text its strings, lists of characters, and the results: a
--     value, an error, or out of fuel. Scan is scan/scanner.go, Parse is parse/build.go and
--     parse/directive_parser.go, Compile is compileTemplate of template.go. Layout has what tokens
--     a text has, Print their text, Trees which tokens spell which tree. Fuel is the length of the
--     text: each round takes a character at least.
--
--   * Template/Render: dbx/sqltmplx/render. Sample is bind_scan.go with skipPlaceholderSample,
--     Bind is bind.go with the state of context.go, Clean is cleanup.go, Nodes is renderer.go.
--     Skips shows that what is skipped gets shorter, Ends that the fuel is enough and the
--     arguments are counted; Given has the items of a placeholder and Placed the text that a
--     template is bound to.
--
--   * Locks: kvx/module/lock/lock.go, with the client (kvx.Lock of kvx/core.go) as a parameter;
--     Service is what its interface promises: the lock of another token is left alone, and an
--     acquired one is that of the token. Keys and tokens are numbers; a TTL is in nanoseconds, and
--     a timeout in milliseconds. An auto-extension whose ticker panics is taken to end the program
--     in Acquire, which starts it. Exclusion takes the calls of many locks in any order, with
--     leases that run out as steps of their own; Manager has the manager, which keeps its locks in
--     a map, and WithLock and WithTryLock, around a function that returns or panics; in Waiting,
--     TryAcquire is on fuel, a round for each 100 ms of the timeout and two more. Shared is
--     semaphore.go and rwlock.go, over a client that is kvx.KV of kvx/core.go.
--
-- The order of cmp.Ordered is taken to be a strict total order, as on integers and strings; a
-- floating-point NaN is outside it. A slice is too short for the sums of indices to overflow.
-- Capacities that only preallocate are left out, and so are the concurrent wrappers, which take a
-- lock around each call.
--
-- Not modelled of the later parts: nil functions, receivers and clients, which the code only
-- reports; the Operation that policies are handed; the arithmetic on floating-point numbers behind
-- a delay, which is a parameter; the timeout policy and the default test of what is worth a retry;
-- the lookup of a parameter by reflection and the evaluation of an if expression, which are
-- parameters; the cache and the validators of the template engine.
pub mod Prelude
pub mod Interval
pub mod Sequences
pub mod Mapping
pub mod Sets
pub mod Paging
pub mod Client
pub mod Template
pub mod Locks

-- ===== src/Lib.antt =====
-- tracing-proxy receives spans over HTTP and gRPC, forwards each to the peer that owns its trace,
-- gathers the spans of a trace there, asks a sampler whether to keep the trace, and hands the kept
-- spans to a transmission. This library models the parts that decide what becomes of a span: the
-- routers, the conversion of what they receive, the collector, its cache of live traces, the
-- records of sent traces, the sharder that chooses the peer for a trace, the members of the
-- cluster, and the samplers.
--
-- Files and code:
-- - Types (types/event.go): `Event`, `Span` and `Trace` with `AddSpan`, `GetDataSize`,
--   `CacheImpact`, `DescendantCount` and `GetSamplerKey`. What no code of the collector changes in
--   a span is its `Header`. A pointer to the root span is its place in `spans`.
-- - Cache (collect/cache/cache.go): `DefaultInMemCache`. Traces stand on a heap, and the map and
--   the ring hold pointers to them, numbers, as in the code; so `Set` looks at `Sent` of the trace
--   that it overwrites through the pointer. Its children hold the invariant and the laws of each
--   method.
-- - Collect (collect/collect.go): `InMemCollector`. State is its state,
--   `mergeTraceAndSpanSampleRates` and `isRootSpan`; Send is `send`; Process is `processSpan` and
--   `dealWithSentTrace`; Loop is `sendTracesInCache`, `reloadConfigs`, `oldCheckAlloc`,
--   `newCheckAlloc` and `Stop`; History is `Start` and the loop of `collect`, which takes one
--   event at a time in any order. Observe is the loop of `send` over the spans of a trace, which
--   writes their labelled metrics, and its child Registers the metrics that `Start` registers and
--   the loop with its writes. The other children prove what these keep.
-- - SentCache (collect/cache/legacySentCache.go) and its children Checker
--   (collect/cache/cuckoo.go) and Cuckoo (collect/cache/cuckooSentCache.go): the two
--   implementations of the interface in collect/cache/traceSentCache.go. Late, Remembers and
--   Forgets hold what they promise. Records stand behind pointers, since `Check` counts in the
--   record that the LRU cache holds.
-- - Sharder (sharder/deterministic.go): shards; its children Peers for `GetHashesFor` and
--   `loadPeerList`, Which for `WhichShard`, Chooses and Loads for what they promise. A division by
--   zero and an index out of range are none. The lock is not modelled: each operation is one step.
-- - Sample (sample/rules.go): `compare` and the conditions; its child Rules for the rules and
--   `GetSampleRate`, Matches for what they promise. Its children Deterministic
--   (sample/deterministic.go) and TraceKey (sample/trace_key.go) are the sampler by a hash and the
--   key of the dynamic samplers; Dynamic (sample/dynamic.go, sample/dynamic_ema.go,
--   sample/totalthroughput.go) the samplers with that key, and Factory (sample/sample.go) the
--   choice among all of them.
-- - Conditions (config/sampler_config.go): the tests that `setMatchesFunction` stores in the
--   conditions of rules; Agrees compares them with what sample/rules.go decides.
-- - Convert (pkg/convert): Values (pkg/convert/common.go) is the values of attributes and
--   `limitedWriter`; Messages the decoded messages; Status, Translate and its child Request
--   (pkg/convert/traces.go) are `TranslateTraceRequest`, with TraceId for `BytesToTraceID`,
--   SampleRate for `getSampleRate` and Classification (pkg/convert/classification.go) for the kind
--   of a span; Request (pkg/convert/common.go, pkg/convert/errors.go) is the reading of a body.
--   The other children hold what they promise.
-- - Route (route/route.go): `processEvent`, with the channels of `AddSpan`; its children
--   Environment for the cache of environment names, EventTime for `getEventTime`, Handlers for
--   `event` and `batch` with the replies of route/errors.go, Guard (route/middleware.go), and Otlp
--   (route/otlp_trace.go). The other children hold what they promise.
-- - Pipeline: the routers and the collector of one process together, by `processEvent` and the two
--   channels of collect/collect.go. Delivers and Drains follow spans through it.
-- - Members (internal/redimem/redimem.go): the scan of Redis and `GetMembers`; its child Watch
--   (internal/peer/redis.go) is the list of peers that `watchPeers` keeps.
-- - Metrics (metrics/opsramp.go): the metrics by name, and what is asked of the Prometheus
--   library, as calls; its children Sweep for the first part of `Push`, Labels
--   (metrics/metrics.go) for `ConvertNumeric` and `ExtractLabelsFromSpan`, and Creates for what
--   the operations make.
-- - Transmit (transmit/transmit.go): what `EnqueueEvent` copies of an event, and `processResponses`.
-- - Utils (pkg/utils/utils.go): `SyncedMap`.
-- - Settings (config/file_config.go): the checks of the two files; its children Reload for
--   `NewConfig` and `onChange`, Samplers for `GetSamplerConfigForDataset`, and Stuck and Usable
--   for what they promise. An instance of viper is a parameter, with its defaults already set.
-- - Tests: concrete samplers, caches and configurations, and the theorems at them.
-- - Base: lists, maps and numbers that the other modules share.
--
-- How the parts meet: a handler builds events and gives each to `process_event`, which asks the
-- sharder and puts the span into a channel, or the event into a list that stands for a
-- transmission; a `turn` of the loop of `collect` takes a span out, the channel of the peers
-- first, and gives it to `process_span`. `processSpan` asks the cache for the trace (`get`) and
-- places new ones (`set_trace`); a tick sends what `take_expired_traces` answers, and then one of
-- the two strategies sends more traces and rebuilds the ring or removes them from it; `send`
-- decides once per trace and appends its spans to `enqueued`, which stands for
-- `Transmission.EnqueueSpan`.
--
-- The invariant `IsLive` says that map and ring are consistent, that the traces in the ring are
-- allocated, and that none of them has been sent. The weight of a list of spans is a sum over
-- their headers for an arbitrary function, so two lists with the same weight for every function
-- hold the same headers equally often.
--
-- Parameters: the samplers and their factory (package sample) as `SamplerFactory`, a function of
-- the sampler's state and the trace; the record of sent traces as `TraceSentCache`, which
-- SentCache fills twice; the LRU cache and the cuckoo filter as records of operations, with
-- `IsLru` and `IsFilter` for what their documentation says; `sort.Slice` as a function, of which
-- theorems assume only that it permutes its list (`Sorts`); the calls of the sharder as `Calls`,
-- with `Sorting`.
--
-- What packages and the network answer to the routers is in records of functions: `Services`,
-- `TimeParsers`, `Decompressors`, `Client`, `Answers`; for the rule conditions `Conversions`, for
-- trace keys `Printers`, for the rates of keys `Dynsampler`, for Redis and the clock `Redis`, for
-- the conversion `Tools`, `Encoder` and `Readers`, for metrics `Library`, `Numbers` and `Printer`,
-- for viper and the validator `Reads`.
--
-- Conventions: every loop is structural recursion but `scan`, which runs on fuel: two more than
-- its timeout is enough if the clock goes on at every step. `uint` wraps at 2 ^ 64; sizes and
-- times are natural numbers without a bound. Each operation reads the clock once, as `now`. A
-- getter of the configuration that may fail and whose failure the code handles is an `Option`; the
-- section of the in-memory collector is taken to load.
--
-- Not modelled: logging; the values that the Prometheus library holds, its panic on a counter that
-- is given a negative number, and the export of metrics; of the other metrics only the calls of
-- `Metrics.Increment` in collect/collect.go. `Observe` and `write_spans` stand beside `send`, not in it: that
-- model of `send` does not panic; a nil `Data` map and a nil sampler, at which the code panics; a trace
-- timeout of 0, by which `CacheImpact` divides; the mutexes, since each operation is one step;
-- HTTP and gRPC themselves, the servers and the endpoints that only show versions and settings;
-- the parsing of configuration files and the defaults; the client library of the transmission, and
-- what starts and stops it; the connection to Redis. The goroutine that calls `Maintain` is not modelled either.
pub mod Base
pub mod Types
pub mod Cache
pub mod Collect
pub mod SentCache
pub mod Sharder
pub mod Sample
pub mod Conditions
pub mod Convert
pub mod Route
pub mod Pipeline
pub mod Members
pub mod Utils
pub mod Settings
pub mod Metrics
pub mod Transmit
pub mod Tests

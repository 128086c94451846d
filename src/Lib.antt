-- ===== src/Lib.antt =====
-- A model of the core of the web search service (`websearch/internal`) and of the page reading service
-- (`webfetch/internal`), and what holds of them.
--
-- The program takes a search request, normalizes it and compiles its structured options into each
-- provider's query syntax (`searchplan`), answers from a cache or from a provider or a chain of
-- providers (`cache`, `provider`), and draws the capacity of a provider from a pool of browser
-- profiles that earn and lose trust with the results of their requests (`profilepool`); the router
-- (`routing`) asks one pool after the other, and a cursor (`cursor`) stands for the next page. The
-- second service reads one web page: it checks the address (`safeurl`), fetches and renders the page,
-- and answers from a cache where it can (`app/read_service.go`).
--
-- The files, and the code that each is about:
--   Prelude         shared names: lists, texts, integers, and Go's `strings` functions
--   Domain          `domain/search.go`, `domain/errors.go`, and results `(value, error)`
--   ProfilePool     `profilepool`: Types (the state), Floats (`float64` as an interface), Hash
--                   (`bucket`), Trust (`trust.go`), Manifests (`manifest.go`), Select
--                   (`selectEntry`), Acquire (`tryAcquire`), Control (`Activate`, `Drain`,
--                   `replaceRetired`, `Close`), Build (`New`), Release (`lease.go`), Snapshots
--                   (`Snapshot`), Histories (sequences of calls); the other children are proofs
--   SearchPlan      `searchplan`: Normalize, Compiler, Canonical (`CanonicalizeURL`), Finalize;
--                   proofs in Guarantees, Coverage, Compatibility and Values
--   Cache           `cache/memory.go` in Memory; proofs in Bounds, Eviction, Reads and
--                   Refinement
--   Provider        `provider`: Chain with its proofs Fallback and Building, Planned, Registry, and
--                   Breaker for `provider/baidu/breaker.go` and the policy of
--                   `provider/baidu/strategy.go`
--   Baidu           `provider/baidu`: Types and Building (`strategy.go`), Attempts, Judging and Search
--                   (`provider.go`), Failures (`buildSearchError`), and Detector for
--                   `detector/baidu.go`; proofs in Outcomes, Turns and Explained
--   App             `app/search_service.go`: Requests (`normalizeRequest`, `selectProvider`) with the
--                   proofs Acceptance and Choice, Responses (`prepareFresh`, `prepareStale`) with the
--                   proof Serving, Flow (`Search`, `acquireLive`) with the proof Again
--   Routing         `routing/router.go`: Router (its tests and `prepareSuccess`), Building (`New`),
--                   World (what searches share), Waiting (`acquireAnyAuto`), Rounds and Search (the
--                   loop of `Search`); proofs in Priority, Providers, Fresh, Budget, Endings,
--                   RoundEnds, Leasing and Termination
--   Cursor          `cursor/codec.go` in Codec; the proof RoundTrip
--   WebFetch        `webfetch/internal`: Types (`domain/read.go`), Failures (its errors), Requests
--                   (`Normalize`, `TruncateContent`), Pipeline (`fetch/pipeline.go`),
--                   Extraction, Live, Formatting and Service (`app/read_service.go`), SafeUrl
--                   (`fetch/safeurl/policy.go`); proofs in Diagnostics, Accepted, Truncation,
--                   Normalized, Origins, Answering, Responses, SafeAddresses and SafeTargets
--   Examples        concrete inputs at which the theorems hold
--
-- A Go type is a record or a data type with the same fields or cases, a method is a function from
-- the state to the new state and the result. A pointer to an entry of a pool is its index. Every
-- exported method of the pool, the cache, the registry and the breaker holds a mutex or changes
-- nothing, so a concurrent run is a sequence of calls. A method reads the clock once, at the
-- argument `now`, where the code may read it twice within one critical section.
--
-- Numbers: a count, a duration or a time is a natural number, in nanoseconds for times; an integer
-- that the code only tests with `<= 0` is 0 where it is not positive; `Limit` and `Page` are
-- integers; the `uint64` generation wraps around at 2^64 and the 32-bit hash at 2^32. `float64` is
-- the parameter `FloatOps`: its operations carry no law, except that the selection of the least
-- loaded profile needs the order of the numbers that are not NaN (`IsOrder`).
--
-- Texts are lists of code points; `unicode` is the lower-casing of the characters beyond ASCII. The
-- package `net/url` is the parameter `UrlLib`, and `PageLib` for the detector, with the HTML
-- tokenizer. The message of a plain error keeps the words and drops the quoted values. The manifest
-- directory is a list of decoded files and the outcomes of the file operations to come. A map is an
-- association list or a function; the order of the list in the cache stands for the order in which
-- `range` visits the map, which Go leaves open. A provider is a function on the state of the world
-- outside, in which the context may be canceled at any time. Loops over lists are structural
-- recursions. The loop of `Router.Search` takes fuel, one unit for each round: more than the number of
-- pools times `MaxAgentAttempts` is enough, since each round counts an attempt against a provider that
-- is not given up on. The goroutines of `acquireAnyAuto` are a list of turns, in any order, between
-- which other searches use the same pools. The capacity for live searches is a counter; a wait for it,
-- and what the other searches do while a provider works, are parameters. The parts of the read service
-- are functions on the state of the outside and of its cache.
--
-- Not modelled: the callers that share a flight of `SearchService.Search`, `PooledProvider.Search`,
-- blocking in the pool (`Acquire`, `AcquireAuto` and `WaitAvailable` are single rounds and the counter
-- of waiters), the lifecycle manager, `Fingerprint` (a hash of JSON), the providers' transports, the
-- providers other than Baidu, the parsing of result pages (two functions of `Baidu`), tracing to
-- files, configuration and the HTTP APIs; of `webfetch`, the readers, extractors, the quality
-- evaluator and the memory cache, which repeats the one of the search service.
pub mod Prelude
pub mod Domain
pub mod ProfilePool
pub mod SearchPlan
pub mod Cache
pub mod Cursor
pub mod Provider
pub mod App
pub mod Baidu
pub mod Routing
pub mod WebFetch
pub mod Examples

-- ===== src/Lib.antt =====
-- The verification library of stac-proxy, a federating STAC proxy written in Go.
--
-- A client's search goes to many origins at once. `PaginatedSearcher.Search` decodes the signed
-- cursor of the page, asks the origins that have more to give, merges what they send with what
-- earlier pages left over, and signs the cursor of the next page. The collection router picks the
-- origins, a circuit breaker guards the transport to each of them, and small helpers capture
-- responses and throttle log lines.
--
-- Files and the code they model (paths from the repository's root):
-- Stac/Item: internal/stac/extras.go, the origin link of an item and its datetime.
-- Stac/Cql2: internal/stac/cql2_eval.go, the trees, values and properties; Cql2/Compare is compare,
--   Cql2/Eval is eval and evalOp, Cql2/Logic the laws of the operators.
-- Federation/Cursor: internal/federation/cursor.go, the state (FederatedCursor, OriginCursor) and
--   its operations; Cursor/Codec is Encode and DecodeCursor, Cursor/Tokens what a token is worth,
--   Cursor/Sessions when a session ends.
-- Federation/Merger: internal/federation/merger.go, mergeItemsFirstWins; Merger/Dedup its laws;
--   Merger/Results is MergeSearchResults, MergeCollections and CalculateMergeStats, Merger/Arrival
--   is about the order of arrival.
-- Federation/Status: internal/federation/status.go, the errors of origins and the headers of
--   partial responses.
-- Federation/Pagination: internal/federation/pagination.go, fetchFromOrigins and mergeResults with
--   one definition per phase; Pagination/Search is Search; Stashes, Shares, Links and Conserve are
--   about the items of a page and of the stashes after it, Order about the order of a page
--   and of what is kept for the next, Failures about pages on which an origin delivers nothing.
-- Federation/LinkHeader: internal/federation/pageadapter/link_header.go, the next link of the Link
--   headers.
-- Federation/Adapters: internal/federation/pageadapter, SameOrigin and Capture of every adapter;
--   Adapters/Auto is Probe and auto, Adapters/Locked the registry and pickAdapter of pagination.go,
--   Adapters/Rooted is about the captured URLs.
-- Federation/Router: internal/federation/router.go; Router/Routes is about Register and Route,
--   Router/Discovery about UpdateFromDiscovery.
-- Httpx/Breaker: internal/httpx/breaker.go (withDefaults, admit, record, open) and fullJitter of
--   transport.go; Breaker/Period, Breaker/Calls and Breaker/Trace hold the theorems, the last one
--   over interleaved requests.
-- Httpx/Capture: internal/httpx/capture.go; Capture/Laws is about sequences of writes.
-- Httpx/Retry: internal/httpx/transport.go, which requests are retried, and when.
-- Httpx/Headers: the lines of a header, shared by the packages that read and set them.
-- Httpx/Hops: internal/httpx/hopbyhop.go, the headers that are not forwarded.
-- Logx/Throttle: internal/logx/throttle.go, the interleaved steps of concurrent calls.
-- Configuration: internal/config/validation.go over the records of config.go; Configuration/Server,
--   Origins and Components are its checks, Validation is Validate, Sound and References are about
--   what an accepted configuration promises to the rest; Started is which of its origins
--   cmd/stac-proxy/main.go and internal/federation/handler.go start, and the cursor they give.
-- Middleware/RateLimit: internal/middleware/ratelimit, with clientip.go; RateLimit/Script is the Lua
--   script of redis.go, RateLimit/Redis its limiter with middleware.go around it, RateLimit/Bursts
--   is about the requests of one millisecond.
-- Middleware/Auth: internal/middleware/auth/provider.go; Auth/Chain is middleware.go, Auth/Apikey,
--   Basic, Bearer, Oidc and Mtls the providers of those files, Schemes the header that two of them
--   read; Claiming is about the chain of all of them, Keyring about the store of API keys, Tokens
--   about the keys of tokens.
-- Middleware/Auth/Jwks: internal/middleware/auth/jwks.go, the keys and the client's sections;
--   Jwks/Calls is KeyWithAlg; Jwks/Refinement is about the sections in any order, Jwks/Floods about
--   calls and refreshes in the background, one after the other.
-- Middleware/Authz: internal/middleware/authz/types.go, the decision and HasConstraints;
--   Authz/Scope is applyConstraints, Authz/Filters injectCQL2Filter with cql2.go and
--   required_filters.go, Authz/Geofence filterByGeofence, Authz/Enforce validateSingleRecord and
--   NewHTTPMiddleware. Authz/Merging and Authz/Injected are about the filter that goes upstream,
--   Authz/Admitted and Authz/Bounds about what reaches the inner handler, Authz/Records,
--   Authz/Fencing and Authz/Searches about what is handed on, Authz/Keys about the order of a map
--   of required filters; Authz/Input is BuildAuthzInput.
-- Middleware/Cache: internal/middleware/cache; Cache/Serve is one request through the middleware
--   and its memory store, Cache/Isolation what a request can be answered with, Cache/Partial is
--   about partial responses.
-- Common: numbers, lists, maps as association lists, and stable sorting, shared by all.
--
-- Conventions: a Go int that is not negative, a time and a length are natural numbers, and the
-- counters that wrap (`gen` of the breaker, the shift of its period) are taken modulo 2^64. A Go
-- map is an association list, in the order of one iteration; an operation under a lock is a
-- function of the state; concurrent calls are sequences of events, one for each atomic section.
-- No model has fuel: every loop is structural. Package time, rand,
-- JSON, base64, HMAC, digests, float64, the LRU cache, geometries and the searchers of the
-- origins are parameters, with what is documented of them as named hypotheses (Draws, IsCodec,
-- IsLru, Survives, IsBuilders, IsBodies, IsParser, IsExact).
--
-- Not modelled: HTTP itself, the OPA clients, the limiter in memory, CORS, logging, URL
-- remapping, the reading of the configuration, and the command but for the origins that it starts.
mod Common
pub mod Stac
pub mod Httpx
pub mod Logx
pub mod Federation
pub mod Middleware
pub mod Configuration
mod Tests

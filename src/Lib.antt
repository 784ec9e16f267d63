-- ===== src/Lib.antt =====
-- Safe-Road decides whether a device may resolve a domain. A client, a DNS resolver or a browser
-- extension, asks the service of internal/risk: an administrator's override decides first, then a
-- whitelist, and only then an assessment, which joins a threat feed, a lexical score, TLS, WHOIS,
-- an AI opinion and public warnings, and which is cached. The resolver answers a query by a block
-- message or passes it on to an upstream server. Beside them stand the rate limiter in front of the
-- handlers and the scheduler of the background tasks, of which the audit turns suspicious domains of
-- the telemetry log into overrides and the alert reports what was blocked.
--
-- Files and the code they model:
--   Domain      NormalizeDomain of internal/analysis/analysis.go; getRootDomain and getMainLabel of
--               internal/analysis/brand.go
--   Verdict     Result, and how a score becomes a verdict (internal/analysis/analysis.go)
--   Distance    the edit distances of internal/analysis/brand.go; Distance/Scripts has their measure
--   Brand       CheckBrandSpoofing of internal/analysis/brand.go and its tables
--   Category    ClassifyCategory of internal/analysis/analysis.go
--   Lexical     Analyzer.Analyze of internal/analysis/analysis.go, and internal/config/analysis.go
--   Bloom       the filter of internal/risk/bloom.go, in machine integers
--   Whitelist   internal/risk/whitelist.go over the whitelist table of internal/store/sqlite.go
--   Overrides   overrides and the group of a client, internal/store/sqlite.go
--   Groups      the operations on client groups and mappings of internal/store/sqlite.go
--   Telemetry   the telemetry log of internal/store/sqlite.go: writer, retention and queries
--   Feed        the parser of internal/feed/parse.go
--   Sync        `Sync` of internal/feed/sync.go and the statuses of internal/feed/status.go, over calls
--               of internal/cache/redis.go; Sync/Task: internal/agent/feedsync.go; Sync/Summary:
--               ParseSources, ResolveSources and ReadStatusSummary of internal/feed/status.go
--   Osint       ShouldLookup and Apply of internal/osint/osint.go
--   Service     `analyze` of internal/risk/service.go
--   Service/Policy  `Policy` and `AnalyzeWithOptions` of internal/risk/service.go
--   RateLimit   internal/ratelimit/limiter.go; RateLimit/Tiers: internal/ratelimit/middleware.go
--   Resolver    the handlers of cmd/dns-resolver/main.go; Resolver/Client: from the HTTP request to
--               the query and its client
--   Engine      internal/agent/engine.go
--   Audit       internal/agent/audit.go, with the agent events
--   Alert       internal/agent/alert.go
--   Session     the signed cookie of internal/auth/auth.go
--   Tls         the scoring of certificates in internal/tlsinspect/inspect.go
--   Base, Strings  Booleans, numbers, lists, maps, and the functions of Go's `strings` the code calls
--   Tests       concrete inputs
-- A child module holds what its parent's definitions satisfy; RateLimit/Tiers, Service/Policy,
-- Resolver/Client, Sync/Task and Sync/Summary hold further definitions too.
--
-- How the code is translated:
--   * A Go string is its list of code points (Text); strings are taken to be valid UTF-8. Lower case
--     beyond ASCII and the host of a URL are arguments, the record Platform.
--   * SQLite is its tables and whether it answers or can be written; Redis is its entries and whether
--     it is on and answers. An error that a function returns is a value; log lines are left out.
--   * The opinions of other servers (TLS, WHOIS, AI, OSINT) are functions, the record Outside.
--   * Scores are natural numbers. A total below 0, which a configured brand-spoofing score below 10 can
--     give, counts as 0. A confidence is counted in 1/3000, and a weighted edit distance in
--     halves. Shannon entropy, digits beyond ASCII and the decoder of internationalised names are
--     arguments, the record Measures.
--   * The limiter's rate is a whole number of requests per minute, time counts nanoseconds, and
--     tokens are counted exactly in 1/(60 * 10^9). The floats of the code are these numbers, rounded.
--   * Each call that holds a mutex is one step on the state; traces are lists of such steps, in the
--     order in which the mutex is taken.
--   * The bit and hash counts of a Bloom filter, which the code computes with float logarithms, are
--     arguments; hashing is FNV-1a on 64 bits over the UTF-8 bytes.
--   * Loops run over lists. Only the loop over the reads of a CSV feed has fuel, the number of reads;
--     one more than the reads before the end of the stream is enough.
--
--   * The DNS library, the upstream server, HMAC, base64 and JSON are arguments, with what the code
--     relies on as named hypotheses (IsReplying, IsCodec). What is sent to the upstream is kept in the
--     resolver's state, so that theorems can speak of it.
--   * The calls of Redis in a synchronisation succeed or fail by a list in its state; one that fails
--     changes nothing.
--   * Whether a connection of SQLite enforces foreign keys is a field of GroupDb, and an argument of
--     upsert_group_override.
--
-- Not modelled: network and file access, the pages of the core API, the texts of alerts, deadlines
-- and panics of handlers, WHOIS, the AI client, the fetching of warnings, the
-- opening of feed sources, and the other tasks that the scheduler runs.
pub mod Base
pub mod Strings
pub mod Domain
pub mod Verdict
pub mod Bloom
pub mod Whitelist
pub mod Overrides
pub mod Groups
pub mod RateLimit
pub mod Osint
pub mod Resolver
pub mod Audit
pub mod Alert
pub mod Telemetry
pub mod Sync
pub mod Tls
pub mod Session
pub mod Service
pub mod Distance
pub mod Category
pub mod Brand
pub mod Lexical
pub mod Feed
pub mod Engine
pub mod Tests

-- ===== src/Lib.antt =====
-- dota2-analysis: the core of the ingestion and analysis services of the repository.
--
-- The ingestion service (go-ingestion) publishes match ids on a queue, fetches their data through
-- a pool of proxies, keeps the raw data in a payload store, parses and validates it, and writes it
-- to the database under a circuit breaker; keys that were seen are kept apart. Known pick/ban
-- sequences tell whether the draft of a match is complete. The analysis service (go-analysis)
-- keeps the snapshot of a draft in progress and its table of phases, offers the heroes that are
-- still free, and recommends the best of them.
--
-- Files, with the code that they are about:
--   Draft/Patterns: go-ingestion/internal/worker/parser/decode_draft.go. `validate_draft` is
--     `ValidateDraft`, `detect_draft_era` is `DetectDraftEra`; their loops are functions of their own.
--   Draft/Phases: `AssignPhases`, `PhaseName` and `PhaseNames` of the same file, and
--     go-analysis/internal/domain/phase_table.go with `DerivePhaseTable`.
--   Draft/State: go-analysis/internal/domain/draft.go, `NewDraftState` and `LegalHeroes`.
--   Breaker: go-ingestion/internal/resilience/circuit_breaker.go, each method in one step.
--   Breaker/Threads: the same methods split at their atomic operations, which interleave.
--   Queue: go-ingestion/internal/queue/inmem/queue.go and go-ingestion/internal/queue/queue.go.
--   Proxy: go-ingestion/internal/proxy/inmem/pool.go and lease.go.
--   Doer: go-ingestion/internal/proxy/httpdo/doer.go, `Do` with its retries, over the interface of
--     go-ingestion/internal/proxy/pool.go, which Doer/Inmem fills with the in-memory pool.
--   Doer/Clients: the cache of clients of the same file, and go-ingestion/internal/proxy/transport.
--   Payload: go-ingestion/internal/payload/inmem/store.go.
--   Dedup: go-ingestion/internal/dedup/inmem/seen.go.
--   Ingester: go-ingestion/internal/worker/ingester, `Ingest`, the classification of errors, and the
--     `ResilientIngester` as a client of the breaker.
--   Migrator: go-core/migrator/runner.go, `loadMigrations`, the loop of `Run` and `apply`.
--   RedisQueue: go-ingestion/internal/queue/redisstreams/queue.go, the encoding of messages;
--     RedisQueue/Client has the operations on Redis and its Lua scripts, RedisQueue/Client/Subscriber
--     the reads, the turns of `Subscribe` and the promotion of delayed retries; RedisQueue/Async the
--     loops that `EnableAsyncRetry` starts, whose turns interleave with the calls.
--   Enrich: `sortByDependencies` of go-ingestion/internal/enrich/runner.go; Enrich/Run: its `Run`.
--   Gate: go-ingestion/internal/enrich/gate/gate.go, the gate that Enrich/Run asks.
--   Handlers: go-ingestion/internal/queue/middleware.go, `Chain` and `ErrorTranslator`, with the
--     interfaces of go-ingestion/internal/queue/queue.go that a worker uses.
--   Discovery: go-ingestion/internal/worker/discovery/matches/cycle.go, the reading of matches and the
--     loop that fetches them; Discovery/Cycle: `RunOnce`, a client of a dedup and of a publisher.
--   Fetcher: go-ingestion/internal/worker/fetcher/fetcher.go, a client of a payload store and of a
--     publisher.
--   Decode: go-ingestion/internal/worker/parser/decode.go, with the JSON of a match in Decode/Raw;
--     Decode/Players and Decode/Series, Decode/Events and Decode/Root: decode_players.go,
--     decode_events.go and decode_match.go beside it; Decode/Domain: go-core/domain/match.go.
--   Parser: go-ingestion/internal/worker/parser/parser.go, a client of a payload store and of an
--     ingester; Parser/Lost takes the in-memory store and Parser/Stored the ingester of this library,
--     Parser/Pipeline also the fetcher.
--   RedisProxy: go-ingestion/internal/proxy/redisproxy, the keys and the Lua scripts; RedisProxy/Pool:
--     the operations of pool.go and lease.go. Laws says what they rely on in Redis, Runs and Steps what
--     the scripts and the operations keep.
--   RedisSeen: go-ingestion/internal/dedup/redisseen/seen.go, over the same interface as Dedup.
--   RedisPayload: go-ingestion/internal/payload/redisstore/store.go, over the interface of Payload.
--   Link: a round trip to Redis, for the three of these and DeadLetters.
--   DeadLetters: go-ingestion/internal/dlq/commands.go, `Replay` and `Purge`.
--   Backpressure: `adjustForBackpressure` of go-ingestion/internal/queue/redisstreams/queue.go.
--   Recommend: go-analysis/internal/recommend, `Recommend` and the ensemble of scores.
--   Base: tests, lists over the native numbers, Go maps as association lists, strings as bytes;
--     Base/Numbers: decimal integers as Go prints and parses them.
--   Tests: runs on concrete inputs.
--
-- Numbers. Ids, counters and lengths are natural numbers: the code never makes them negative, and
-- counts stay far below the width of an int. The slot of a draft, which a caller may pass as a
-- negative int, is an integer. The retry limit of a queue is 0 where the code has 0 or less, as both
-- turn dead letters off.
--
-- Bounds. The digits of n are printed with fuel n + 1, which is enough as a number has no more digits
-- than its value plus one. The loop of `Acquire` runs once per proxy. A call that runs alone is done
-- after seven atomic steps (`RecordFailure`) or five (`RecordSuccess`). `sortByDependencies` has one
-- unit of fuel more than there are sources: each nested call holds another source.
--
-- The loop of `RunOnce` has no bound in the code, so its attempts are a list and the theorems speak
-- of a loop that has ended.
--
-- Connections to Redis. A round trip of the queue gets through, or is cut off after some of its
-- commands with an error for the client; the fates of the round trips are a list. Client and server
-- read one clock; the pool of proxies counts in seconds, as its scripts do.
--
-- Not modelled: databases, Redis, HTTP and JSON, which are not code of the repository; float64
-- arithmetic of the scoring, which is a parameter; logging and metrics; commands and
-- configuration, which only wire parts together; the tickers that start cycles and recoveries.
-- Time is an argument where code reads the clock, or the event that a timer goes off. The network,
-- the database and the parsing of urls are parameters: records of functions.
pub mod Base
pub mod Backpressure
pub mod Breaker
pub mod DeadLetters
pub mod Decode
pub mod Dedup
pub mod Discovery
pub mod Doer
pub mod Draft
pub mod Enrich
pub mod Fetcher
pub mod Gate
pub mod Handlers
pub mod Ingester
pub mod Link
pub mod Migrator
pub mod Parser
pub mod Payload
pub mod Proxy
pub mod Queue
pub mod Recommend
pub mod RedisPayload
pub mod RedisProxy
pub mod RedisQueue
pub mod RedisSeen
pub mod Tests

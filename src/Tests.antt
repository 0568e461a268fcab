-- ===== src/Tests.antt =====
-- Runs on concrete inputs, and for each result one input at which it applies.
mod Draft
mod Breaker
mod Queue
mod Proxy
mod Doer
mod Payload
mod Ingester
mod Migrator
mod Backpressure
mod Recommend
mod Redis
mod RedisProxy
mod RedisQueue
mod RedisSeen
mod Enrich
mod Letters
mod DeadLetters
mod Discovery
mod Fetcher
mod Parser
mod AsyncRetry
mod Pipeline

-- ===== src/Lib.antt =====
-- Verification of OqronKit, a job scheduling library (packages/oqronkit/src).
--
-- A job's id travels from `publish` through a broker to the consumer that claims it; distributed
-- locks guard leaders and running jobs; throttle gates, rate limiters and circuit breakers decide
-- whether work may go ahead; caches and the storage keep records. The parts that are modelled:
--
--   JsMap      `Map<string, V>` of JavaScript: entries in order of insertion.
--   Storage    engine/types/engine.ts `IStorageEngine`: one namespace, as an interface with laws, which
--              engine/memory/memory-store.ts meets.
--   MemoryStore engine/memory/memory-store.ts with its namespaces: Swaps is `compareAndSet`, Lists the
--              order, the pages and `prune`.
--   Lock       engine/types/engine.ts `ILockAdapter` as an interface with laws. Lock/Memory is
--              engine/memory/memory-lock.ts, and meets them; Lock/Leader is
--              engine/lock/leader-election.ts; Lock/Safety has any number of such nodes, whose
--              calls interleave, as a step relation.
--   Broker     engine/memory/memory-broker.ts `MemoryBroker`. Its children prove: Queued what is queued,
--              Claims and Agenda what a claim returns, ClaimLocks the locks, Sorted the invariant,
--              Stranded where an id is no longer reached.
--   Window     sliding windows, shared by Throttle and RateLimit/Sliding.
--   Throttle   engine/utils/throttle-gate.ts, and its use by the engines.
--   RateLimit  ratelimit/algorithms: Fixed, Sliding, Bucket, over any Storage.
--   Lru        cache/lru.ts.
--   Job        engine/types/job.types.ts: the statuses and the record of a job.
--   Dependency engine/utils/dependency-resolver.ts, over the jobs and the broker. Its children prove:
--              Termination that a cascade ends, Evolution, Cascade and Settled what it does to the jobs,
--              Registration what the registration of a child leaves.
--   Backoff    engine/utils/backoffs.ts, with its bounds.
--   Executor   engine/utils/job-executor.ts: the configuration and what is written into the record. Run is
--              `executeJob`, over Lock, Heartbeat, Broker, Dependency and Retention; Outcome and Outcomes
--              are its contract, Retries counts attempts. Preflight and Batch are `executeBatch`,
--              BatchEntries is about its last loop.
--   Cache      cache/cache-engine.ts over Lru and the storage. Engine has the reads, Writes the rest, Calls
--              sequences of calls. Tagged, Indexed, Complete and History are about the index of the tags,
--              Tiers, Served and Written about what a read may return. Fetch is `getOrFetch`.
--   Reconcile  engine/utils/reconciliation-engine.ts over any Lock, the Broker and a listing of the jobs:
--              Passes is one pass, Recovered and Scan the three, Crash a retry that was cut short, Values
--              the records as a list.
--   JobList    engine/memory/memory-store.ts, `list` on the jobs, which meets the laws of the listings that
--              Reconcile and StallScanner ask for.
--   EventMatcher webhook/event-matcher.ts: Segments is the matcher as a relation, Accepts and Events the
--              same on the segments between the dots.
--   StallScanner engine/lock/cross-node-stall-scanner.ts: Orphans is the loop, Listed (over
--              Appended) what it looks at, Scans the whole scan, Counts says what an orphan is with the in-memory lock and how
--              often a job may stall.
--   Heartbeat  engine/lock/heartbeat-worker.ts over any lock.
--   ParseWindow ratelimit/utils/parse-window.ts.
--   MissedFire scheduler/missed-fire.handler.ts: Intervals and Crons are its two branches.
--   Retention  engine/utils/job-retention.ts over any storage: Newest is the order and the loop, Pruned
--              the whole call.
--   Circuit    webhook/circuit-breaker.ts: States is the machine of one endpoint, Memory and Shared
--              are the two classes, Agree compares them.
--   Tests      runs at small inputs.
--
-- Conventions. A method is a function from the state to the state and the result. A method reads the
-- clock once, as `now`, in milliseconds; times, counts and priorities are natural numbers.
-- A string is the list of its code units. An exception is a value (`none`, `lost`, `threw`).
-- Methods of one process run one at a time, as they do between two `await`s; where nodes interleave,
-- a step relation or a list of calls says so. Every loop is a recursion on a list or on a counter that
-- the source has, so that no fuel is needed, but for two: the cascade of Dependency, where one
-- more than the number of jobs in `waiting-children` is enough, since each call of itself is made
-- after one of them has failed; and the enumeration of missed dates, each later than the one before, where
-- one more than the present date is enough.
--
-- Not modelled: timers and listeners (of `claimBlocking`, `broadcast`, `subscribe`, and the intervals
-- of elections), the Redis and Postgres adapters, whose behaviour is in Lua and SQL, and the parts of
-- the library that no file above names.
pub mod MemoryStore
pub mod JobList
pub mod Cache
pub mod EventMatcher
pub mod Reconcile
pub mod Prelude
pub mod Backoff
pub mod Executor
pub mod JsMap
pub mod Storage
pub mod Lock
pub mod Broker
pub mod Window
pub mod Throttle
pub mod RateLimit
pub mod Lru
pub mod Circuit
pub mod Job
pub mod Dependency
pub mod Retention
pub mod StallScanner
pub mod MissedFire
pub mod ParseWindow
pub mod Heartbeat
mod Tests

-- ===== src/Lib.antt =====
-- Beefy's balances indexer: an Envio indexer that turns the events of Beefy contracts into rows of
-- contracts, balances, supplies and timelines, a ClickHouse store that prices and serves them, and an
-- HTTP API over it. This library models the parts below and proves what they promise.
--
-- The parts, the files that model them, and the code:
--   * Http/Lru: apps/api/src/http/lru.ts, the API's cache. `get`, `set` and `evict` are the methods;
--     the JavaScript `Map` is an association list in insertion order (Common/Dict).
--   * Http/RateLimit: apps/api/src/http/rateLimit.ts, the token buckets of the clients. `refill`, `spend`,
--     `make_room` and `take` are the code's, over the operations on numbers that it uses: Doubles has those of
--     JavaScript, with their rounding, and Exact those without it, in parts of 1/60000 of a token. The other parts
--     use Doubles.
--   * Http/Breaker: apps/api/src/http/breaker.ts. A call is two events, `enter` before its await and
--     `settle` after it, so calls overlap in any order.
--   * Http/Limiter: apps/api/src/http/limiter.ts. `acquire`, `release` and `time_out` are the steps of
--     an interleaving, and the pending timers a list of waiters beside the queue.
--   * Http/ClientIp: apps/api/src/http/clientIp.ts, the address a request is attributed to. `resolve_client_ip`,
--     `in_ranges` and `client_key` are the code's; `isIP` is a parameter, and the ranges of Cloudflare are an argument.
--   * Http/ClientRateLimit: apps/api/src/http/clientRateLimit.ts, which spends a token of the bucket of that
--     address; what it reads of a request is `Request`, and its answer a `ClientReply`.
--   * Clickhouse/Ranges: packages/clickhouse/src/ranges.ts, `planRanges`, which cuts history into the ranges
--     of the reprice statements. Times are milliseconds; a range without an end has none.
--   * Indexer/Event and Indexer/Store: apps/indexer/src/lib/event.ts, hex.ts and the tables of
--     apps/indexer/schema.graphql that the two parts below use. An id is the tuple of the parts that the
--     code joins into a text.
--   * Indexer/Timeline: apps/indexer/src/lib/timeline.ts, `writeTimelineEvent` and
--     `writeTransferTimeline`, which attributes the mints and burns of a router to its users.
--   * Indexer/Balances: apps/indexer/src/lib/balances.ts, `handleShareTransfer` and `handleBoostStake`,
--     which call the timeline.
--   * Indexer/Registry: apps/indexer/src/lib/registry.ts, the contracts, their tokens and links.
--     `apply_facts`, `register_created_contract` and `ensure_contract` are the code's; `new_price_facts`
--     is the guards of `completePriceFacts`, and `with_facts` the row that `applyFacts` stores. What the
--     RPC reads answer is an argument of each call.
--   * Indexer/Handlers: apps/indexer/src/handlers/*.handlers.ts but headPrices, lib/rows.ts, lib/register.ts
--     and lib/classify.ts, one function for each event, on all tables. Shares is the share tokens, boosts,
--     managers and pools, Strategies both types of strategy, Swapper the swappers, Factories the factories
--     and what they route; Steps is one event of any of them.
--   * Timelines: apps/api/src/timeline. Units is `formatUnits` of units.ts, Actions `actionsOf` and Build
--     `buildTimeline` of build.ts: `assemble` is its first loop, `item_of` a round of the second. Doubles, dates
--     and the table of chains are the parameters of Platform. Service is `createTimelineService` of service.ts
--     with http/singleFlight.ts: `begin` is `get` up to its wait, `query_ended` a build after its query, and
--     Service/Components holds the events that these are.
--   * Worker: apps/worker/src. Scheduler is `startScheduler` of scheduler.ts, with the end of a run, a timer and
--     `stop` as events, and Status the report of jobs/versionStatus.ts.
--   * Common: numbers, integers, maps, texts, lists and tests that the parts share.
--
-- How the parts meet: the registry lets an event of a known contract through. One of a share token goes on
-- to Indexer/Balances, which writes the balances, the supply and, by Indexer/Timeline, the timeline rows;
-- Clickhouse/Ranges plans the statements that price those rows; the API answers from them behind the
-- cache, the rate limit, the limiter and the breaker of Http, which Timelines/Service puts together with
-- the building of the answers by Timelines/Build.
--
-- Conventions: the clock is an argument (`now`), and where a theorem needs it the calls come in the order of
-- their times. Loops are structural recursion on the list that the code walks, but for the digits of a number, which
-- have one round of fuel for each unit of it and one more, where a tenth would do.
-- `bigint` is the integers of Common/Int, over the native numbers. A `Promise.all` over parts that write
-- different tables runs them one after the other; where it reads rows of one table (the tokens of
-- `applyFacts`), all are read before any is written. Addresses and hashes are lists of code points, and
-- `toLowerCase` is that of ASCII.
--
-- Not modelled: code that calls servers or libraries (RPC, SQL, Arrow, Hono), configuration, scripts,
-- and the parts that read them: the head prices, the routes of the API,
-- the other jobs of the worker and the deployments. The price that the timeline reads (lib/headPrices.ts)
-- and the blacklist that the registry reads (lib/blacklist.ts) are parameters.
pub mod Common
pub mod Http
pub mod Clickhouse
pub mod Indexer
pub mod Timelines
pub mod Worker

-- ===== src/Lib.antt =====
-- The SoroStream SDK: payment streams that pay a recipient by the second. This development models the
-- parts that compute and decide: the accrual of a stream and its state machine, the mock client that
-- stands for the contract, and the guards around remote calls.
--
-- Parts and files (paths from the root of the repository):
-- - Stream: the `Stream` record of src/types.ts and `safeClaimable` of src/utils.ts, which all accrual
--   goes through. Stream/Claims shows what it returns.
-- - Lifecycle: `StreamStateMachine` of src/state-machine.ts. Lifecycle/Reach has the step relation of
--   `getNextState` and what is reached by it.
-- - Mock: `MockSoroStreamClient` of src/mock.ts. A method is a function of a state and exception monad
--   over `Client`, the record of its maps; what was written before a throw stays written. Mock/State has
--   the state, the errors and the events; Mock/Claimable `claimableAt`; Mock/Create `createStream` and
--   `lockUntil`; Mock/Flows `withdraw`, `cancelStream`, `topUp`, `batchCancel`, `updateFlowRate`;
--   Mock/Lifecycle `splitStream`, `transferStream`, `pause`, `resume`, `advanceTime`; Mock/Access the
--   delegates and operators; Mock/Reads the batch read and the pages. The theorems stand in Backing,
--   Effects, Solvency, Accrual, Payment, Splitting, Refinement, Creation, Access/Authority,
--   Reads/Batch and Reads/Walk; Refinement ties the mock to the state machine of Lifecycle.
-- - Simulator: `StreamSimulator` of src/simulator.ts, compared with the mock in Simulator/Withdrawals.
-- - Rates and Vesting: the conversions of rates and `calculateVestingSchedule` of src/utils.ts.
-- - CircuitBreaker, RateLimiter, WriteRateLimiter, Cache, Retry: src/circuitBreaker.ts,
--   src/rate-limiter.ts, src/writeRateLimiter.ts, src/cache.ts, and src/retry.ts with `jitterDelay` of
--   src/internal.ts. Asynchronous methods are split where they await, and the pieces are the events of
--   a list, so that a theorem about any list of events is one about any interleaving.
-- - OfflineQueue and RequestQueue: `OfflineWriteQueue` of src/offlineQueue.ts and
--   `PriorityRequestQueue` of src/request-queue.ts, also as steps of any interleaving. A drain of the
--   request queue is recursion on the slots that are free, each round of it takes one.
-- - Portfolio: the reports over streams of src/utils.ts. Portfolio/Totals has the totals and the
--   aggregates by token and recipient, Portfolio/Select filters, sorting, drift and durations.
-- - StreamHealth: `getStreamHealth` and its batch of src/utils.ts.
-- - Projection: `simulateStream`, `projectCost` and `calculateStreamDelta` of src/utils.ts and
--   `getPortfolioStats` of src/portfolioAnalytics.ts. Projection/Times has the times of the snapshots.
-- - Amounts: `toStroops` and `formatUSDC` of src/utils.ts on the codes of characters. Amounts/Literals
--   has `BigInt` and `String` of the language; RoundTrip and Nearest rest on Digits.
-- - StreamId: the base58 texts of stream ids of src/utils.ts, read back in StreamId/RoundTrip and
--   written again in StreamId/Canonical.
-- - ConnectionPool, RequestDeduplicator and LedgerWait: src/connectionPool.ts,
--   src/requestDeduplicator.ts and `waitForLedger` of src/readConsistency.ts.
-- - Base has the helpers: native numbers and tests, lists, `Map` as an association list in insertion
--   order, integers, results and decimal texts. Samples has streams for the tests, which stand with the
--   witnesses of the theorems in the Tests module of each part.
--
-- Numbers. Amounts are stroops (bigint) and times whole seconds or milliseconds; both are natural
-- numbers, an argument that may be negative is an integer, and a subtraction that the source clamps at 0
-- is the truncated one. The limit of an i128 in `safeClaimable` is written out. The backoff delay
-- overflows to infinity where a double does. The write rate limiter counts time in fractions of a
-- millisecond, as many as its rate, where the source divides doubles. The time now, random numbers and
-- the outcomes of awaited functions are arguments. The loops are recursion on lists or,
-- in `withRetry`, on the attempts that are left. The encoder of stream ids makes at most 11 rounds, since
-- 2^64 is below 58^11, and `waitForLedger` is run for one round more than its timeout has milliseconds;
-- both are shown to be enough. Only the reader of all pages in Mock/Reads/Walk, which
-- is a client of the code and no part of it, has a bound on the number of pages, one more than there are
-- streams, which is shown to be enough.
--
-- That a queue or pool neither loses nor doubles what it holds is stated with weights: an equation of
-- sums that holds for any weights of the items says that the same items stand on both sides.
--
-- Not modelled: `SoroStreamClient` and what calls the network, wallets or the Stellar SDK; logging and
-- telemetry; encodings; the address book; of the mock, observables, clones, snapshots, plugins and the sandbox; the messages of
-- errors. `isTransientRpcError`, the pattern of `invalidatePattern` and `filterStreams` are parameters.
pub mod Amounts
pub mod Base
pub mod Stream
pub mod Samples
pub mod Lifecycle
pub mod CircuitBreaker
pub mod RateLimiter
pub mod WriteRateLimiter
pub mod Cache
pub mod Retry
pub mod OfflineQueue
pub mod RequestQueue
pub mod Portfolio
pub mod StreamHealth
pub mod StreamId
pub mod ConnectionPool
pub mod Projection
pub mod LedgerWait
pub mod RequestDeduplicator
pub mod Rates
pub mod Vesting
pub mod Mock
pub mod Simulator

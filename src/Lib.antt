-- ===== src/Lib.antt =====
-- Verification of the BTCTurk trading bot (src/btcbot).
--
-- The bot runs in cycles. A cycle looks at the market and the account, decides how degraded it is,
-- plans orders from intents, filters the planned actions by risk limits, submits what is left, and
-- books the fills. The modules below model the parts that carry these decisions.
--
-- - Base: Boolean tests on numbers, lists, stable sorting, dictionaries in insertion order, and
--   integers for decimal amounts.
-- - Degrade: src/btcbot/domain/anomalies.py (`decide_degrade`, `combine_modes`) and the modes of
--   src/btcbot/domain/risk_budget.py. A decision becomes the state that the next cycle starts from;
--   `degrade_cycles` runs cycles one after the other.
-- - Stage4: the records of src/btcbot/domain/stage4.py that the services pass around.
-- - Lifecycle: src/btcbot/services/order_lifecycle_service.py (`OrderLifecycleService.plan`): which
--   open orders to cancel and which intents to submit.
-- - StageRisk: src/btcbot/services/risk_policy.py (`RiskPolicy.filter_actions`): the planned actions
--   against limits on open orders, order size and position, by a projection that a loop carries.
-- - Cycle: src/btcbot/services/stage4_cycle_runner.py, the part of `run_one_cycle` from the intents to
--   the actions that the risk policy accepts: Lifecycle and StageRisk put together. The filters after it
--   (universe cap, shrinking, mode gate, minimum amount, kill switch, freeze) are not modelled.
-- - CycleRisk: src/btcbot/services/risk_policy_service.py (`RiskPolicyService.filter_actions`): the
--   same actions against the risk mode and the exposure of the cycle.
-- - RateLimit: src/btcbot/services/rate_limiter.py (`TokenBucketRateLimiter`), the tokens of one group
--   and the limiter over groups. The OMS is given any limiter.
--   RateLimit.Acquired has the loop of `acquire`.
-- - Retry: src/btcbot/services/retry.py (`retry_with_backoff`) over any call, as a step on a state.
-- - Oms: src/btcbot/services/oms_service.py with src/btcbot/domain/order_state.py and order_intent.py.
--   Oms declares orders, events and the transition; Oms.Store the Stage 7 tables of
--   src/btcbot/services/state_store.py; Oms.Simulator the market simulator; Oms.Submit one submit
--   with its retries and fills; Oms.Process the handling of one intent; Oms.Batch `process_intents`
--   and `reconcile_open_orders`. A submit uses the loop of Retry.
-- - RiskBudget: src/btcbot/risk/budget.py (`RiskBudgetPolicy`), the limits of a day from capital, loss
--   and drawdown, and the split of profits between capital and treasury.
-- - Reconcile: src/btcbot/services/reconcile_service.py (`ReconcileService.resolve`), the comparison
--   of the exchange's open orders with the stored ones.
-- - Merge: src/btcbot/adapters/btcturk/reconcile.py (`Reconciler.merge`), the merge of REST orders and
--   websocket events (Merge.Events), with the objects that states share in an explicit heap
--   (Merge.Cells).
-- - Sizing: src/btcbot/domain/money_policy.py (`size_order_from_notional`) and the quantizing and
--   validation of src/btcbot/domain/models.py: an order of an amount, on the grid of its symbol.
-- - IntentRisk: src/btcbot/risk/policy.py (`RiskPolicy.evaluate`), limits on the intents of a cycle, and
--   IntentRisk.Rules: src/btcbot/risk/exchange_rules.py, the cached rules of a symbol. It rounds with
--   Sizing.
-- - Allocation: src/btcbot/services/allocation_service.py (`AllocationService.allocate`), the cash of a
--   cycle shared out among intents: Allocation.Budget says how much, Allocation.Caps what caps an
--   intent, and Allocation.Limits sizes it.
-- - Registry: src/btcbot/services/unknown_order_registry.py, the orders of uncertain state that freeze
--   submits.
-- - Ledger: src/btcbot/accounting/ledger.py and models.py (`AccountingLedger.recompute`): the replay of
--   events into first-in first-out lots, cash and profit.
-- - StageLedger: src/btcbot/domain/ledger.py: the ledger of Stage 4 (`apply_events`) on the
--   records of StageLedger.Records, and in
--   StageLedger.Payload a state as a text and back. It rounds with Sizing.
--
-- Representation. An amount that the program keeps as a `Decimal` is a whole number of a unit that each
-- module names, so sums and products are exact and the rounding of the code is written out; a
-- quotient is compared by cross-multiplication or kept as a fraction. The 28 digits of a `Decimal`
-- operation are not modelled. Strings that are only compared (symbols, ids, hashes, reasons) are
-- numbers, 0 for the empty string. Clock readings are arguments. An exception is a value: `none`, or
-- a constructor of the result type. SQL statements are operations on lists and dictionaries with the
-- key of the table. A lock makes a call one step.
--
-- Bounds. Loops over lists are recursion on the list. The loop of Retry counts the attempts that are
-- left, from the setting that the code counts to. The `while` loops of a sale in StageLedger and of
-- `acquire` in RateLimit take fuel: as many rounds as there are lots, and two sleeps; that this is enough
-- is among the results. The matching of lots in Ledger is recursion on the lots, since a lot that is
-- left over ends the sale.
--
-- Not modelled: the exchange adapters, the rest of the SQL store, the execution services and the rest
-- of the cycle runners, market data, universe selection and strategies, agents, the services around
-- risk budgets and ledgers, configuration, logging and the command line: they are input and output,
-- SQL or heuristics on floats, or stand on the parts that are modelled here. The parameters of the model
-- are the calls of the rate limiter that the OMS makes, the length of a sleep, the hash of an intent,
-- the number at the end of an id, the draws of the jitter, the blocked symbols of a reconciliation, the
-- place of an accounting event in the order of its sort key, the canonical form of a symbol, the upper
-- case of a status, the market data service behind the rules of a symbol, and the functions that read
-- and write JSON, decimals and times.
--
pub mod Base
pub mod Degrade
pub mod Cycle
pub mod Merge
pub mod Allocation
pub mod Sizing
pub mod IntentRisk
pub mod StageLedger
pub mod Stage4
pub mod StageRisk
pub mod CycleRisk
pub mod Retry
pub mod Oms
pub mod Registry
pub mod Ledger
pub mod Lifecycle
pub mod RateLimit
pub mod Reconcile
pub mod RiskBudget

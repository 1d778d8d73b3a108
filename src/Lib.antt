-- ===== src/Lib.antt =====
-- yourcastbot: a Telegram bot that delivers podcasts. Several processes (the bot, the updater of the
-- feeds, the jobs) share one SQLite database, and what must survive a crash or hold between them is
-- in its tables. This library models the parts that decide what is sent, to whom, and what is paid.
--
-- The parts, and the files that model them:
--   Outbox (Outbox.antt and the files below Outbox/): app/core/sender/outbox.py, the durable queue of
--     send jobs. A row is pending, leased, done or failed; workers of the send balancer claim a row,
--     renew its lease and finish it. Queue has enqueue and the edits of a queued job, Lease the
--     heartbeat, touch, reclaim and the stalled leases, Claim the claim, Finish mark_done,
--     fail_or_retry and the purge, Click the enqueue of a listener's click. Steps is the queue as a
--     sequence of these operations, with restarts that lose the memory of leases.
--   Balancer (Balancer, Balancer/Steps): app/core/balancers/recordSender.py, the threads that send and
--     what claims jobs of the Outbox for them; what a send raises is a parameter.
--   Digest (Digest/Queue, Digest/Watcher): app/jobs/digest_outbox.py, the same lease protocol over
--     one row a user, and a round of the loop of app/jobs/digest_watcher.py.
--   Grants (Grants/Hold, Grants/Start, Grants/Check): db/plan_grants.py, plans that are given while a
--     chat is subscribed to the owner's channels, and the hourly check of app/jobs/plan_grants.py
--     with what it asks of app/service/plan/channels.py.
--   Tick: app/jobs/tariff_tick.py and its statements in db/sqliteAdapter.py, on the same tables.
--   Payments (Apply, Subscribe, Replenish, Award, Patreon, Refund): what writes a plan row for money or
--     as an award, `applyPaymentReplenishmentOnce` and `subscribeUserToTariffByUid` of
--     db/sqliteAdapter.py, two functions of app/service/payment/paymentSafeModule.py, db/patreon.py
--     and db/stars_refund.py, on the tables of Grants and Tick with payment_history.
--   Effects (Effects, Effects/Run): db/payment_effects.py, the queue of what a payment sets off, which
--     Payments fills, and `run_due` of app/jobs/payment_effects.py, which empties it.
--   Plan: app/service/plan/features.py and entitlements.py, what a plan gives.
--   Usage: db/usage.py, the ledger that the limits count.
--   Limits (Limits, Limits/AiQuota): app/service/record/free_limit.py and app/service/ai/quota.py.
--   Supervisor: app/core/process_supervisor.py, the restarts of the processes.
--   Offers: app/service/payment/offers.py and storefront.py, the discounts and the order of plans.
--   Winback: db/winback.py, the schedule of messages to a chat whose plan stopped.
--   Navigation (Navigation, Navigation/Screens): the menu of a chat in
--     app/repository/storage/storage.py, `go_back` of app/core/navigation/goBackModule.py, and how a
--     tap or a text reaches a screen (app/core/controller.py, app/routes/initialize_routes.py,
--     app/core/balancers/telebotAnswerer.py). What a handler does at each call is a parameter.
--   Kv (Kv, Kv/Migrate): db/runtime_kv.py, the key-value table that the processes share.
--   Table: the SQL statements that the program sends, over a table as a list of rows.
--   Prelude: what all files share.
--
-- How the code is modelled. A transaction is a function on the whole table, since SQLite runs them
-- one at a time (BEGIN IMMEDIATE); what a module keeps in memory (the leases of this process) is a
-- field beside the rows. A call reads the clock once, and the time is an argument in seconds. A WHERE
-- is a Boolean function of a row, an UPDATE rewrites the rows that meet it, ORDER BY .. LIMIT 1 picks
-- a row that no other stands before. A result that the source returns beside its writes comes first
-- in a pair with the new state; an exception that rolls back is `none`. Chats, users and episodes are
-- numbers. Numbers are natural: a difference is taken only where the source's own test makes it one;
-- a balance, which may be a debt, and a number of deliveries are integers.
-- Costs are counted in parts of a dollar that make every rate whole, so that the source's floating
-- sums are exact here. Each recursion is on a list or on a number, but for the pass over the due
-- effects, whose fuel is above the number of due rows.
--
-- What is not modelled: Telegram, feeds, audio and AI services (what they answer is a parameter where
-- a decision depends on it), the texts of messages and the menus, the JSON of a payload before it is
-- parsed, the creation and migration of tables, threads inside one process but for those of Balancer,
-- whose steps are in any order, fractions of an hour in a plan's features, a NULL number of days, and
-- a clock that moves during one pass over the due effects.
pub mod Prelude
pub mod Table
pub mod Outbox
pub mod Digest
pub mod Grants
pub mod Usage
pub mod Plan
pub mod Limits
pub mod Tick
pub mod Supervisor
pub mod Offers
pub mod Kv
pub mod Effects
pub mod Payments
pub mod Navigation
pub mod Balancer
pub mod Winback
